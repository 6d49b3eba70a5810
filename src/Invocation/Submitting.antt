-- ===== src/Invocation/Submitting.antt =====
-- internal/invocation/service.go: what a submission that succeeds has checked and left behind.
use nimbus_run_a_self_hosted.Prelude.{
  suc, ◌≡◌, ◌≢◌, refl, sym, ◌∙◌, ap, subst, inl, inr, [], ◌∷◌, ◌++◌, arith, lookup,
}
use nimbus_run_a_self_hosted.Prelude.Exec.{Error, ok, err, wrapped, Result-cases}
use nimbus_run_a_self_hosted.Platform.Data.{Time}
use nimbus_run_a_self_hosted.Platform.Postgres.{Row, text, uuid, cell, pair_up}
use nimbus_run_a_self_hosted.Models.{Function, FunctionVersion, Invocation}
use nimbus_run_a_self_hosted.Queue.Delivery.{Gains}
use nimbus_run_a_self_hosted.Repository.Invocations
use nimbus_run_a_self_hosted.Env.{Env, IsEnv, World}
use nimbus_run_a_self_hosted.Idempotency.{idem_key}
use nimbus_run_a_self_hosted.Invocation.{
  InvokeRequest, InvokeResult, Service, new_invocation, build_job, resolve, send, submit,
}
use nimbus_run_a_self_hosted.Invocation.Resolving.{Resolved, resolve_lem, resolve_rest}
use nimbus_run_a_self_hosted.Invocation.Sending.{queued, send_lem}

module _ (e : Env) (laws : IsEnv e) where
  -- What a submission that succeeds has checked and done.
  pub record Submitted (svc : Service e) (now : Time) (req : InvokeRequest) (w : World e)
      (result : InvokeResult) : Type 0 where
    pub fn : Function
    pub ver : FunctionVersion
    pub resolved : Resolved e laws req.function_id w fn ver
    pub answered : result ≡ queued (e.uuids.created w.drawn)
    pub gains :
        Gains e.redis e.jobs w.redis
          (submit e svc now req w).1.redis
          svc.job_queue.job_stream
          (build_job e svc now (e.uuids.created (suc w.drawn)) (e.uuids.created w.drawn) fn ver req)
    pub row : Row
    pub recorded :
        e.postgres.rows (submit e svc now req w).1.db "invocations"
        ≡ e.postgres.rows w.db "invocations" ++ row ∷ []
    pub row_id : cell row "id" ≡ uuid (e.uuids.created w.drawn)
    pub row_function : cell row "function_id" ≡ uuid fn.id
    pub row_version : cell row "version_id" ≡ uuid ver.id
    pub row_status : cell row "status" ≡ text "PENDING"
    pub row_key : cell row "idempotency_key" ≡ text req.idempotency_key

  -- The world that `send` starts from.
  abbrev recorded_in : World e → World e → Invocation → World e
  recorded_in w w' inv = record {
    redis = w.redis;
    db = (Invocations.create e.postgres inv w'.db).1;
    drawn = suc (suc w.drawn);
    timers = w.timers;
  }

  submit_run :
      (svc : Service e) (now : Time) (req : InvokeRequest) (w : World e) (fn : Function)
      (ver : FunctionVersion)
      → (resolve e req.function_id w).0 ≡ ok (fn, ver)
      → (Invocations.create e.postgres
          (new_invocation e (e.uuids.created w.drawn) fn ver req.idempotency_key)
          (resolve e req.function_id w).1.db).0
        ≡ ok tt
      → submit e svc now req w
        ≡ send e svc req
            (e.uuids.created w.drawn)
            (build_job e svc now
              (e.uuids.created (suc w.drawn))
              (e.uuids.created w.drawn)
              fn
              ver
              req)
            (recorded_in w
              (resolve e req.function_id w).1
              (new_invocation e (e.uuids.created w.drawn) fn ver req.idempotency_key))
  unfolding submit
  submit_run svc now req w fn ver f c = ground (
    arith,
    f,
    c,
    (resolve_rest e laws req.function_id w).0,
    (resolve_rest e laws req.function_id w).1,
    (resolve_rest e laws req.function_id w).2,
  )

  submit_failed :
      (svc : Service e) (now : Time) (req : InvokeRequest) (w : World e) (fn : Function)
      (ver : FunctionVersion) (cause : Error)
      → (resolve e req.function_id w).0 ≡ ok (fn, ver)
      → (Invocations.create e.postgres
          (new_invocation e (e.uuids.created w.drawn) fn ver req.idempotency_key)
          (resolve e req.function_id w).1.db).0
        ≡ err cause
      → (submit e svc now req w).0 ≡ err (wrapped "creating invocation record" cause)
  unfolding submit
  submit_failed svc now req w fn ver cause f c =
      ground (arith, f, c, (resolve_rest e laws req.function_id w).1)

  submit_lem :
      (svc : Service e) (now : Time) (req : InvokeRequest) (w : World e) (result : InvokeResult)
      (fn : Function) (ver : FunctionVersion)
      → svc.job_queue.job_stream ≢ idem_key req.idempotency_key
      → e.redis.entries w.redis (idem_key req.idempotency_key) ≡ []
      → Resolved e laws req.function_id w fn ver
      → (Invocations.create e.postgres
          (new_invocation e (e.uuids.created w.drawn) fn ver req.idempotency_key)
          (resolve e req.function_id w).1.db).0
        ≡ ok tt
      → submit e svc now req w
        ≡ send e svc req
            (e.uuids.created w.drawn)
            (build_job e svc now
              (e.uuids.created (suc w.drawn))
              (e.uuids.created w.drawn)
              fn
              ver
              req)
            (recorded_in w
              (resolve e req.function_id w).1
              (new_invocation e (e.uuids.created w.drawn) fn ver req.idempotency_key))
      → (submit e svc now req w).0 ≡ ok result
      → Submitted svc now req w result
  unfolding Invocations.create new_invocation lookup
  submit_lem svc now req w result fn ver apart absent resolved c run done =
      let inv = new_invocation e (e.uuids.created w.drawn) fn ver req.idempotency_key in
      let row : Row =
        pair_up Invocations.insert_columns (Invocations.values_of inv)
        ++ e.postgres.defaults (resolve e req.function_id w).1.db "invocations" in
      let start = recorded_in w (resolve e req.function_id w).1 inv in
      let job =
        build_job e svc now (e.uuids.created (suc w.drawn)) (e.uuids.created w.drawn) fn ver req in
      let (answered, db, gains) =
        send_lem e laws svc req (e.uuids.created w.drawn) job start result apart absent
          (ap (λ p. p.0) (sym run) ∙ done) in
      record {
        fn = fn;
        ver = ver;
        resolved = resolved;
        answered = answered;
        gains =
            subst (λ p. Gains e.redis e.jobs w.redis p.1.redis svc.job_queue.job_stream job)
              (sym run) gains;
        row = row;
        recorded =
            ap (λ p. e.postgres.rows p.1.db "invocations") run
            ∙ ap (λ d. e.postgres.rows d "invocations") db
            ∙ laws.postgres_laws.insert_ok _ "invocations" _ _ c
            ∙ ap (λ rows. rows ++ row ∷ []) (resolve_rest e laws req.function_id w).3;
        row_id = refl;
        row_function = refl;
        row_version = refl;
        row_status = refl;
        row_key = refl;
      }

  -- If no stream has the name of the key under which the request's result is stored, and a submission
  -- succeeds, then the function of the request exists and has an active version that
  -- is ready; the answer is a new id with status PENDING; the job stream has gained exactly one
  -- message, which carries the job of that function, version, id and payload; and the table of
  -- invocations has gained exactly one row, with that id, function, version and key, in status
  -- PENDING.
  pub submit_succeeds :
      (svc : Service e) (now : Time) (req : InvokeRequest) (w : World e) (result : InvokeResult)
      → svc.job_queue.job_stream ≢ idem_key req.idempotency_key
      → e.redis.entries w.redis (idem_key req.idempotency_key) ≡ []
      → (submit e svc now req w).0 ≡ ok result
      → Submitted svc now req w result
  unfolding submit
  submit_succeeds svc now req w result apart absent done =
      elim (Result-cases (resolve e req.function_id w).0) [
        | inr (cause, f) ↦ absurd (ground (arith, f))
        | inl ((fn, ver), f) ↦
            let inv = new_invocation e (e.uuids.created w.drawn) fn ver req.idempotency_key in
            elim (Result-cases
              (Invocations.create e.postgres inv (resolve e req.function_id w).1.db).0) [
                | inr (cause, c) ↦
                    absurd (ground (arith, submit_failed svc now req w fn ver cause f c, done))
                | inl (created, c) ↦
                    submit_lem svc now req w result fn ver apart absent
                      (resolve_lem e laws req.function_id w fn ver f) c
                      (submit_run svc now req w fn ver f c) done
              ]
      ]
