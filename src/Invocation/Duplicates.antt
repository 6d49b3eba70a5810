-- ===== src/Invocation/Duplicates.antt =====
-- internal/invocation/service.go: `Invoke` with an idempotency key that is known or locked.
use nimbus_run_a_self_hosted.Prelude.{
  ℕ, suc, String, ◌≡◌, ◌≢◌, ◌∙◌, ap, true, Option, some, arith, eq_iff, inl, inr, str_eq,
  Bool-cases,
}
use nimbus_run_a_self_hosted.Prelude.Exec.{Result, ok, err, errorf, Result-cases}
use nimbus_run_a_self_hosted.Platform.Data.{Time, Uuid}
use nimbus_run_a_self_hosted.Env.{Env, IsEnv, World}
use nimbus_run_a_self_hosted.Idempotency.{
  ResultCache, idem_key, lock_key, check, store, acquire_lock, release_lock,
}
use nimbus_run_a_self_hosted.Idempotency.Results.{check-stored, check_still}
use nimbus_run_a_self_hosted.Idempotency.Locks.{holder, acquire_lock_taken, holder-release_lock}
use nimbus_run_a_self_hosted.Invocation.{
  InvokeRequest, InvokeResult, Service, lock_ttl, duplicate, submit, submit_locked, invoke,
}

-- The answer to a repeated request.
abbrev pub answer : Uuid → String → InvokeResult
answer id status = record {
  invocation_id = id;
  status = status;
  message = "Duplicate request — returning cached result";
  is_duplicate = true;
}

module _ (e : Env) where
  invoke_cached :
      (svc : Service e) (now : Time) (req : InvokeRequest) (w : World e) (cached : ResultCache)
      (id : Uuid)
      → req.idempotency_key ≢ ""
      → (check e.redis e.caches req.idempotency_key w.redis).0 ≡ ok (some cached)
      → e.uuids.parse cached.invocation_id ≡ ok id
      → invoke e svc now req w ≡ (
        ok (answer id cached.status),
        record w { redis = (check e.redis e.caches req.idempotency_key w.redis).1 },
      )
  unfolding invoke duplicate
  invoke_cached svc now req w cached id h found parsed =
      ground (arith, eq_iff req.idempotency_key "", found, parsed)

  -- If the result of an invocation has been stored under an idempotency key, the key still has the
  -- text that was stored, whatever else has changed since, and the check of a request with that key
  -- gets an answer from Redis, then the request is answered with the stored invocation and status, as
  -- a duplicate, and changes nothing: neither Redis with its streams, nor the database, nor the ids
  -- drawn, nor the timers.
  pub invoke-store :
      (laws : IsEnv e) (svc : Service e) (now : Time) (req : InvokeRequest) (w : World e)
      (s : e.redis.State) (id : Uuid) (status result error : String) (found : Option ResultCache)
      → req.idempotency_key ≢ ""
      → (store e.redis e.caches req.idempotency_key (e.uuids.format id) status result error s).0
        ≡ ok tt
      → e.redis.call_get (idem_key req.idempotency_key) w.redis
        ≡ e.redis.call_get
            (idem_key req.idempotency_key)
            (store e.redis e.caches req.idempotency_key (e.uuids.format id) status result error s).1
      → (check e.redis e.caches req.idempotency_key w.redis).0 ≡ ok found
      → invoke e svc now req w ≡ (ok (answer id status), w)
  invoke-store laws svc now req w s id status result error found h stored same checked =
      let cached : ResultCache = record {
        invocation_id = e.uuids.format id;
        status = status;
        result = result;
        error = error;
      } in
      let hit =
        check-stored e.redis e.caches laws.redis_laws laws.cache_laws s w.redis req.idempotency_key
          cached found h stored same checked in
      invoke_cached svc now req w cached id h (checked ∙ ap ok hit) (laws.uuid_laws.parse-format id)
      ∙ ap (λ t. (ok (answer id status), record w { redis = t }))
          (check_still e.redis e.caches laws.redis_laws laws.cache_laws w.redis req.idempotency_key
            found h checked)

  acquire_lock_entries :
      (laws : IsEnv e) (key token : String) (ttl : ℕ) (s : e.redis.State) (stream : String)
      → e.redis.entries (acquire_lock e.redis key token ttl s).1 stream ≡ e.redis.entries s stream
  unfolding acquire_lock
  acquire_lock_entries laws key token ttl s stream =
      let kept = laws.redis_laws.set_nx_entries s (lock_key key) token ttl stream in
      elim (Bool-cases (str_eq key "")) [
        | inl blank ↦ ground (arith, blank)
        | inr there ↦ elim (Result-cases (e.redis.set_nx (lock_key key) token ttl s).0) [
          | inl (b, f) ↦ ground (arith, there, f, kept)
          | inr (cause, f) ↦ ground (arith, there, f, kept)
        ]
      ]

  -- While the lock of an idempotency key has a holder, a request with that key which is not known
  -- yet is refused, whatever Redis replies: no stream and no table changes, and no timer starts.
  pub submit_locked_busy :
      (laws : IsEnv e) (svc : Service e) (now : Time) (req : InvokeRequest) (w : World e)
      (held : String)
      → req.idempotency_key ≢ ""
      → holder e.redis laws.redis_laws req.idempotency_key w.redis ≡ some held
      → ((submit_locked e svc now req w).0
          ≡ err (errorf "concurrent request with same idempotency key"))
        × ((stream : String)
            → e.redis.entries (submit_locked e svc now req w).1.redis stream
              ≡ e.redis.entries w.redis stream)
        × ((submit_locked e svc now req w).1.db ≡ w.db)
        × ((submit_locked e svc now req w).1.timers ≡ w.timers)
  unfolding submit_locked
  submit_locked_busy laws svc now req w held h busy =
      let (b, t, taken, refused) =
        acquire_lock_taken e.redis laws.redis_laws w.redis req.idempotency_key
          (e.uuids.format (e.uuids.created w.drawn)) held lock_ttl h busy in
      let streams =
        acquire_lock_entries laws req.idempotency_key (e.uuids.format (e.uuids.created w.drawn))
          lock_ttl w.redis in
      (
        ground (arith, taken, refused),
        λ stream. ground (arith, taken, refused, streams stream),
        ground (arith, taken, refused),
        ground (arith, taken, refused),
      )

  -- Where a request gets the lock of its key and submits, its deferred release does not free the
  -- lock: if the lock still has the token at the end of the submission, and the release reports no
  -- error, the lock has that token afterwards, unless the token is the empty text.
  pub submit_locked-holder :
      (laws : IsEnv e) (svc : Service e) (now : Time) (req : InvokeRequest) (w after : World e)
      (result : Result InvokeResult) (token : String)
      → req.idempotency_key ≢ ""
      → token ≢ ""
      → (acquire_lock e.redis req.idempotency_key
          (e.uuids.format (e.uuids.created w.drawn))
          lock_ttl
          w.redis).0
        ≡ ok (true, token)
      → submit e svc now req (record w {
        redis =
            (acquire_lock e.redis req.idempotency_key
              (e.uuids.format (e.uuids.created w.drawn))
              lock_ttl
              w.redis).1;
        drawn = suc w.drawn;
      })
        ≡ (result, after)
      → holder e.redis laws.redis_laws req.idempotency_key after.redis ≡ some token
      → (release_lock e.redis req.idempotency_key "" after.redis).0 ≡ ok tt
      → ((submit_locked e svc now req w).0 ≡ result)
        × (holder e.redis laws.redis_laws req.idempotency_key
              (submit_locked e svc now req w).1.redis
            ≡ some token)
  unfolding submit_locked
  submit_locked-holder laws svc now req w after result token h h' taken submitted held freed =
      ground (
        arith,
        taken,
        submitted,
        held,
        eq_iff token "",
        holder-release_lock e.redis laws.redis_laws after.redis req.idempotency_key "" h freed,
      )
