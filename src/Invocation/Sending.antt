-- ===== src/Invocation/Sending.antt =====
-- internal/invocation/service.go: the end of `Invoke`, from the enqueuing of the job on.
use nimbus_run_a_self_hosted.Prelude.{
  ℕ, String, ◌≡◌, ◌≢◌, sym, ◌∙◌, subst, inl, inr, false, List, [], ◌∷◌, str_eq, arith, Bool-cases,
  eq_iff,
}
use nimbus_run_a_self_hosted.Prelude.Exec.{Error, ok, Result-cases}
use nimbus_run_a_self_hosted.Platform.Data.{Uuid}
use nimbus_run_a_self_hosted.Platform.Postgres.{Value, int, text}
use nimbus_run_a_self_hosted.Queue.Types.{Job}
use nimbus_run_a_self_hosted.Queue.Stream.{enqueue_job, error_text}
use nimbus_run_a_self_hosted.Queue.Delivery.{Gains, Gains-keep, enqueue_job-Gains}
use nimbus_run_a_self_hosted.Repository.Invocations
use nimbus_run_a_self_hosted.Env.{Env, IsEnv, World}
use nimbus_run_a_self_hosted.Idempotency.{store, idem_key, result_ttl}
use nimbus_run_a_self_hosted.Invocation.{InvokeRequest, InvokeResult, Service, send}
use nimbus_run_a_self_hosted.Prelude.Int.{pos}

-- The answer to a request that was queued.
abbrev pub queued : Uuid → InvokeResult
queued id = record {
  invocation_id = id;
  status = "PENDING";
  message = "Invocation queued successfully";
  is_duplicate = false;
}

-- What the database holds of an invocation whose job was not enqueued.
abbrev pub failed_with : Error → List (String × Value)
failed_with cause =
    ("status", text "FAILED")
    ∷ ("duration_ms", int (pos 0))
    ∷ ("error_message", text (error_text cause))
    ∷ []

module _ (e : Env) (laws : IsEnv e) where
  -- Setting a key that has no stream changes no stream.
  set_no_stream :
      (k v stream : String) (ttl : ℕ) (s : e.redis.State)
      → e.redis.entries s k ≡ []
      → e.redis.entries (e.redis.set k v ttl s).1 stream ≡ e.redis.entries s stream
  set_no_stream k v stream ttl s absent = elim (Bool-cases (str_eq k stream)) [
    | inl same ↦
        let here = (eq_iff k stream).0 same in
        subst (λ key. e.redis.entries (e.redis.set k v ttl s).1 key ≡ e.redis.entries s key) here
          (laws.redis_laws.set_absent s k v ttl absent ∙ sym absent)
    | inr other ↦
        laws.redis_laws.set_entries s k v ttl stream
          (λ here. ground (arith, other, (eq_iff k stream).1 here))
  ]

  pub store_entries :
      (key a b c d stream : String) (s : e.redis.State)
      → e.redis.entries s (idem_key key) ≡ []
      → e.redis.entries (store e.redis e.caches key a b c d s).1 stream ≡ e.redis.entries s stream
  unfolding store
  store_entries key a b c d stream s absent = elim (Bool-cases (str_eq key "")) [
    | inl empty ↦ ground (arith, empty)
    | inr full ↦
        elim (Result-cases
          (e.caches.marshal (record { invocation_id = a; status = b; result = c; error = d }))) [
            | inl (encoded, m) ↦
                ground
                  (arith, full, m, set_no_stream (idem_key key) encoded stream result_ttl s absent)
            | inr (cause, m) ↦ ground (arith, full, m)
          ]
  ]

  pub send_lem :
      (svc : Service e) (req : InvokeRequest) (id : Uuid) (job : Job) (w : World e)
      (result : InvokeResult)
      → svc.job_queue.job_stream ≢ idem_key req.idempotency_key
      → e.redis.entries w.redis (idem_key req.idempotency_key) ≡ []
      → (send e svc req id job w).0 ≡ ok result
      → (result ≡ queued id)
        × ((send e svc req id job w).1.db ≡ w.db)
        × Gains e.redis e.jobs w.redis
            (send e svc req id job w).1.redis
            svc.job_queue.job_stream
            job
  unfolding send
  send_lem svc req id job w result apart absent done =
      elim (Result-cases (enqueue_job e.redis svc.job_queue e.uuids e.jobs job w.redis).0) [
        | inr (cause, f) ↦ absurd (ground (arith, f))
        | inl (sent, f) ↦
            let t = (enqueue_job e.redis svc.job_queue e.uuids e.jobs job w.redis).1 in
            let gains =
              enqueue_job-Gains e.redis e.jobs e.uuids laws.redis_laws laws.job_laws svc.job_queue
                w.redis job f in
            let absent' : e.redis.entries t (idem_key req.idempotency_key) ≡ [] =
              gains.gained (idem_key req.idempotency_key)
              ∙ ground (
                arith,
                absent,
                apart,
                eq_iff svc.job_queue.job_stream (idem_key req.idempotency_key),
              ) in
            (
              ground (arith, f),
              ground (arith, f),
              Gains-keep e.redis e.jobs w.redis t _ svc.job_queue.job_stream job
                  (λ key. ground (
                    arith,
                    f,
                    store_entries req.idempotency_key (e.uuids.format id) "PENDING" "" "" key t
                        absent',
                  ))
                  gains,
            )
      ]
