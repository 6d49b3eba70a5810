-- ===== src/Invocation/Known.antt =====
-- internal/invocation/service.go: which statuses an invocation can have.
use nimbus_run_a_self_hosted.Prelude.{sym, subst, inl, inr, Bool-cases, List, [], ◌∷◌, map, All}
use nimbus_run_a_self_hosted.Platform.Postgres.{IsPostgres, Row, Value, text, same, cell}
use nimbus_run_a_self_hosted.Retry.Backoff.{should_retry}
use nimbus_run_a_self_hosted.Env.{Env, World}
use nimbus_run_a_self_hosted.Invocation.{Service, retry_job}
use nimbus_run_a_self_hosted.Invocation.Settling.{succeeded}
use nimbus_run_a_self_hosted.Invocation.Statuses.{
  Arrival, Accepted, status_of, row_key, last_status, settled, settle_all, settle_all-last_status,
}

-- The statuses that the service writes: PENDING by `Invoke`, the others when a result is settled.
pub data IsWritten : Value → Type 0 where
  pending : IsWritten (text "PENDING")
  success : IsWritten (text "SUCCESS")
  retrying : IsWritten (text "RETRYING")
  failed : IsWritten (text "FAILED")

module _ (e : Env) where
  status_of-IsWritten :
      (svc : Service e) (a : Arrival e) → IsWritten (text (status_of e svc a.result))
  status_of-IsWritten svc a = elim (Bool-cases (succeeded e a.result)) [
    | inl good ↦ rw (good) success
    | inr bad ↦
        elim (Bool-cases
          (should_retry e.float svc.retry_policy (retry_job e svc a.result).retry_count)) [
            | inl again ↦ rw (bad, again) retrying
            | inr last ↦ rw (bad, last) failed
          ]
  ]

  last_status-IsWritten :
      (svc : Service e) (id : Value) (arrivals : List (Arrival e)) (old : Value)
      → IsWritten old
      → IsWritten (last_status e svc id arrivals old)
  last_status-IsWritten svc id [] old h = h
  last_status-IsWritten svc id (a ∷ rest) old h = elim (Bool-cases (same (row_key e a.result) id)) [
    | inl here ↦ rw (here) (last_status-IsWritten svc id rest _ (status_of-IsWritten svc a))
    | inr elsewhere ↦ rw (elsewhere) (last_status-IsWritten svc id rest old h)
  ]

  map-IsWritten :
      (g : Row → Row) (rs : List Row)
      → ((r : Row) → IsWritten (cell r "status") → IsWritten (cell (g r) "status"))
      → All (λ r. IsWritten (cell r "status")) rs
      → All (λ r. IsWritten (cell r "status")) (map g rs)
  map-IsWritten g [] keep h = tt
  map-IsWritten g (r ∷ rs) keep h = (keep r h.0, map-IsWritten g rs keep h.1)

  -- If each invocation has one of the statuses PENDING, SUCCESS, RETRYING and FAILED, then so it has
  -- after any results have been processed, if the database reports no error for the updates they lead to:
  -- no invocation becomes RUNNING or TIMEOUT, whatever the results say.
  pub settle_all-IsWritten :
      (laws : IsPostgres e.postgres) (svc : Service e) (arrivals : List (Arrival e)) (w : World e)
      → Accepted e svc arrivals w
      → All (λ r. IsWritten (cell r "status")) (e.postgres.rows w.db "invocations")
      → All
          (λ r. IsWritten (cell r "status"))
          (e.postgres.rows (settle_all e svc arrivals w).db "invocations")
  settle_all-IsWritten laws svc arrivals w accepted h =
      let (rows, statuses) = settle_all-last_status e laws svc arrivals w accepted in
      subst (λ rs. All (λ r. IsWritten (cell r "status")) rs) (sym rows)
        (map-IsWritten (settled e svc arrivals) (e.postgres.rows w.db "invocations")
          (λ r old.
            subst IsWritten (sym (statuses r))
              (last_status-IsWritten svc (cell r "id") arrivals (cell r "status") old))
          h)
