-- ===== src/Invocation/Extension.antt =====
-- internal/invocation/service.go: whatever becomes of a call, it only adds to Redis.
use nimbus_run_a_self_hosted.Prelude.{suc, ◌||◌, subst, inl, inr, none, some, Bool-cases, str_eq}
use nimbus_run_a_self_hosted.Prelude.Exec.{Result-cases}
use nimbus_run_a_self_hosted.Prelude.Int.{pos, eqb_ℤ}
use nimbus_run_a_self_hosted.Platform.Data.{Uuid, Time, unix}
use nimbus_run_a_self_hosted.Platform.Redis.{IsRedis}
use nimbus_run_a_self_hosted.Queue.Types.{Job, JobResult}
use nimbus_run_a_self_hosted.Queue.Stream.{enqueue_job, enqueue_dlq}
use nimbus_run_a_self_hosted.Queue.Extension.{
  Extends, Extends-refl, Extends-trans, enqueue_job-Extends, enqueue_dlq-Extends,
}
use nimbus_run_a_self_hosted.Retry.Backoff.{should_retry}
use nimbus_run_a_self_hosted.Retry.Dlq
use nimbus_run_a_self_hosted.Env.{Env, IsEnv, World, Timer}
use nimbus_run_a_self_hosted.Idempotency.{ResultCache, check, store, acquire_lock}
use nimbus_run_a_self_hosted.Idempotency.Extension.{
  check-Extends, store-Extends, acquire_lock-Extends, release_lock-Extends,
}
use nimbus_run_a_self_hosted.Repository.Invocations
use nimbus_run_a_self_hosted.Invocation.{
  Service, InvokeRequest, lock_ttl, new_invocation, build_job, resolve, send, submit, submit_locked,
  duplicate, invoke, retry_job, schedule, settle_success, settle_retry, settle_failure,
  process_result, fire,
}
use nimbus_run_a_self_hosted.Invocation.Resolving.{resolve_rest}

module _ (e : Env) (laws : IsEnv e) where
  abbrev redis_laws : IsRedis e.redis
  redis_laws = laws.redis_laws

  -- From one state to the other, Redis has only been added to.
  abbrev pub Adds : World e → World e → Type 0
  Adds w v = Extends e.redis w.redis v.redis

  send-Adds :
      (svc : Service e) (req : InvokeRequest) (inv_id : Uuid) (job : Job) (w : World e)
      → Adds w (send e svc req inv_id job w).1
  unfolding send
  send-Adds svc req inv_id job w =
      let added = enqueue_job-Extends e.redis redis_laws svc.job_queue e.jobs e.uuids job w.redis in
      let after = (enqueue_job e.redis svc.job_queue e.uuids e.jobs job w.redis).1 in
      elim (Result-cases (enqueue_job e.redis svc.job_queue e.uuids e.jobs job w.redis).0) [
        | inr (cause, f) ↦ rw (f, send) added
        | inl (_, f) ↦ elim (Bool-cases (str_eq req.idempotency_key "")) [
          | inl blank ↦ rw (f, send) (rw (blank) added)
          | inr there ↦
              let id = e.uuids.format inv_id in
              rw (f, send)
                (rw (there) (
                  Extends-trans e.redis w.redis after
                    (store e.redis e.caches req.idempotency_key id "PENDING" "" "" after).1 added
                    (store-Extends e.redis redis_laws e.caches req.idempotency_key id "PENDING" ""
                      "" after)))
        ]
      ]

  submit-Adds :
      (svc : Service e) (now : Time) (req : InvokeRequest) (w : World e)
      → Adds w (submit e svc now req w).1
  unfolding submit
  submit-Adds svc now req w =
      let found = resolve e req.function_id w in
      let same = (resolve_rest e laws req.function_id w).0 in
      let still = subst (λ s. Extends e.redis s found.1.redis) same (Extends-refl e.redis _) in
      elim (Result-cases found.0) [
        | inr (cause, f) ↦ rw (f, submit) still
        | inl ((fn, ver), f) ↦
            let inv_id = e.uuids.created found.1.drawn in
            let inv = new_invocation e inv_id fn ver req.idempotency_key in
            let created = Invocations.create e.postgres inv found.1.db in
            elim (Result-cases created.0) [
              | inr (cause, c) ↦ rw (f, submit) (rw (c) still)
              | inl (_, c) ↦
                  let job_id = e.uuids.created (suc found.1.drawn) in
                  let job = build_job e svc now job_id inv_id fn ver req in
                  let w' : World e = record found.1 {
                    db = created.1;
                    drawn = suc (suc found.1.drawn);
                  } in
                  rw (f, submit)
                    (rw (c) (
                      subst (λ s. Extends e.redis s (send e svc req inv_id job w').1.redis) same
                        (send-Adds svc req inv_id job w')))
            ]
      ]

  duplicate-Adds : (cached : ResultCache) (w : World e) → Adds w (duplicate e cached w).1
  unfolding duplicate
  duplicate-Adds cached w = elim (Result-cases (e.uuids.parse cached.invocation_id)) [
    | inl (id, p) ↦ rw (p, duplicate) (Extends-refl e.redis w.redis)
    | inr (cause, p) ↦ rw (p, duplicate) (Extends-refl e.redis w.redis)
  ]

  submit_locked-Adds :
      (svc : Service e) (now : Time) (req : InvokeRequest) (w : World e)
      → Adds w (submit_locked e svc now req w).1
  unfolding submit_locked
  submit_locked-Adds svc now req w =
      let token = e.uuids.format (e.uuids.created w.drawn) in
      let lock = acquire_lock e.redis req.idempotency_key token lock_ttl w.redis in
      let locked =
        acquire_lock-Extends e.redis redis_laws req.idempotency_key token lock_ttl w.redis in
      let w' : World e = record w { redis = lock.1; drawn = suc w.drawn } in
      elim (Result-cases lock.0) [
        | inr (cause, l) ↦ rw (l, submit_locked) locked
        | inl ((got, text), l) ↦ elim (Bool-cases got) [
          | inr taken ↦ rw (l, submit_locked) (rw (taken) locked)
          | inl free ↦
              let done = (submit e svc now req w').1 in
              rw (l, submit_locked)
                (rw (free) (
                  Extends-trans e.redis w.redis done.redis _
                    (Extends-trans e.redis w.redis lock.1 done.redis locked
                      (submit-Adds svc now req w'))
                    (release_lock-Extends e.redis redis_laws req.idempotency_key "" done.redis)))
        ]
      ]

  -- A submission, accepted or not, only adds to Redis.
  pub invoke-Adds :
      (svc : Service e) (now : Time) (req : InvokeRequest) (w : World e)
      → Adds w (invoke e svc now req w).1
  unfolding invoke
  invoke-Adds svc now req w = elim (Bool-cases (str_eq req.idempotency_key "")) [
    | inl blank ↦ rw (blank) (submit-Adds svc now req w)
    | inr there ↦
        let checked = check e.redis e.caches req.idempotency_key w.redis in
        let looked = check-Extends e.redis redis_laws e.caches req.idempotency_key w.redis in
        let w' : World e = record w { redis = checked.1 } in
        let missed =
          Extends-trans e.redis w.redis checked.1 _ looked (submit_locked-Adds svc now req w') in
        elim (Result-cases checked.0) [
          | inr (cause, f) ↦ rw (there) (rw (f) missed)
          | inl (none, f) ↦ rw (there) (rw (f) missed)
          | inl (some cached, f) ↦
              rw (there) (
                rw (f)
                  (Extends-trans e.redis w.redis checked.1 _ looked (duplicate-Adds cached w')))
        ]
  ]

  -- Settling a result only adds to Redis.
  pub process_result-Adds :
      (svc : Service e) (now : Time) (draw : e.float.Float) (result : JobResult) (w : World e)
      → Adds w (process_result e svc now draw result w).1
  unfolding process_result settle_success settle_retry settle_failure schedule Dlq.enqueue
      Dlq.insert_entry
  process_result-Adds svc now draw result w =
      elim (Bool-cases (str_eq result.status "SUCCESS" || eqb_ℤ result.exit_code (pos 0))) [
        | inl good ↦ elim (Bool-cases (str_eq result.invocation_id "")) [
          | inl blank ↦ rw (good) (rw (blank) (Extends-refl e.redis w.redis))
          | inr there ↦ rw (good) (
              rw (there) (
                store-Extends e.redis redis_laws e.caches "" result.invocation_id "SUCCESS"
                  result.stdout "" w.redis))
        ]
        | inr bad ↦
            let job = retry_job e svc result in
            elim (Bool-cases (should_retry e.float svc.retry_policy job.retry_count)) [
              | inl again ↦ rw (bad) (rw (again) (Extends-refl e.redis w.redis))
              | inr last ↦
                  let fresh = e.uuids.created w.drawn in
                  let dead =
                    (enqueue_dlq e.redis svc.job_queue e.uuids e.jobs fresh (unix now) job
                      result.error w.redis).1 in
                  rw (bad) (
                    rw (last) (
                      Extends-trans e.redis w.redis dead _
                        (enqueue_dlq-Extends e.redis redis_laws svc.job_queue e.jobs e.uuids fresh
                          (unix now) job result.error w.redis)
                        (store-Extends e.redis redis_laws e.caches "" result.invocation_id "FAILED"
                          "" result.error dead)))
            ]
      ]

  -- A retry whose timer fires only adds to Redis.
  pub fire-Adds : (svc : Service e) (timer : Timer) (w : World e) → Adds w (fire e svc timer w).1
  unfolding fire
  fire-Adds svc timer w =
      enqueue_job-Extends e.redis redis_laws svc.job_queue e.jobs e.uuids timer.job w.redis
