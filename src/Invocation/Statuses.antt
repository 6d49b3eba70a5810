-- ===== src/Invocation/Statuses.antt =====
-- internal/invocation/service.go: what `ProcessResult` leaves in the table of invocations.
use nimbus_run_a_self_hosted.Prelude.{
  String, ◌≡◌, ◌≢◌, refl, sym, ap, ◌∙◌, Bool, false, Option, none, some, List, [], ◌∷◌, map,
  if◌then◌else◌, arith, inl, inr, str_eq, Bool-cases, lookup, assign, lookup-assign, eq_iff,
}
use nimbus_run_a_self_hosted.Prelude.Exec.{ok}
use nimbus_run_a_self_hosted.Prelude.Int.{ℤ, pos}
use nimbus_run_a_self_hosted.Platform.Data.{Time}
use nimbus_run_a_self_hosted.Platform.Postgres.{
  IsPostgres, Row, Value, text, int, uuid, bool, time, null, update, same, has, cell, set_all,
}
use nimbus_run_a_self_hosted.Queue.Types.{JobResult}
use nimbus_run_a_self_hosted.Retry.Backoff.{should_retry}
use nimbus_run_a_self_hosted.Retry.Dlq
use nimbus_run_a_self_hosted.Env.{Env, World, parsed_id}
use nimbus_run_a_self_hosted.Repository.Invocations
use nimbus_run_a_self_hosted.Invocation.{
  Service, retry_job, schedule, settle_success, settle_retry, settle_failure, process_result,
}
use nimbus_run_a_self_hosted.Invocation.Settling.{succeeded}

module _ (e : Env) where
  -- The status that a result calls for.
  abbrev pub status_of : Service e → JobResult → String
  status_of svc result =
      if succeeded e result
      then "SUCCESS"
      else if should_retry e.float svc.retry_policy (retry_job e svc result).retry_count
      then "RETRYING"
      else "FAILED"

  abbrev pub columns_of : String → ℤ → String → List (String × Value)
  columns_of status duration message =
      ("status", text status) ∷ ("duration_ms", int duration) ∷ ("error_message", text message) ∷ []

  -- The columns that a result sets: a retry has no duration yet, and a success no error.
  abbrev pub verdict : Service e → JobResult → List (String × Value)
  verdict svc result =
      if succeeded e result
      then columns_of "SUCCESS" result.duration_ms ""
      else if should_retry e.float svc.retry_policy (retry_job e svc result).retry_count
      then columns_of "RETRYING" (pos 0) result.error
      else columns_of "FAILED" result.duration_ms result.error

  abbrev pub row_key : JobResult → Value
  row_key result = uuid (parsed_id e.uuids result.invocation_id)

  module _ (laws : IsPostgres e.postgres) where
    unlike : ◌≢◌ {A = String} "dlq_invocations" "invocations"
    unlike = λ e. ground (arith, (eq_iff "dlq_invocations" "invocations").1 e)

    process_result_db :
        (svc : Service e) (now : Time) (draw : e.float.Float) (result : JobResult) (w : World e)
        → e.postgres.rows (process_result e svc now draw result w).1.db "invocations"
          ≡ e.postgres.rows
              (e.postgres.exec
                (update "invocations" (verdict svc result) "id" (row_key result))
                w.db).1
              "invocations"
    unfolding process_result settle_success settle_retry settle_failure schedule Dlq.enqueue
        Dlq.insert_entry Invocations.update_status
    process_result_db svc now draw result w = elim (Bool-cases (succeeded e result)) [
      | inl good ↦ elim (Bool-cases (str_eq result.invocation_id "")) [
        | inl blank ↦ rw (good, blank) refl
        | inr named ↦ rw (good, named) refl
      ]
      | inr bad ↦
          elim (Bool-cases
            (should_retry e.float svc.retry_policy (retry_job e svc result).retry_count)) [
              | inl again ↦ rw (bad, again) refl
              | inr last ↦
                  rw (bad, last) (laws.insert_other _ "dlq_invocations" _ _ "invocations" unlike)
            ]
    ]

  -- What arrives of one result: the clock, the random number that may be drawn, and the result.
  pub record Arrival : Type 0 where
    pub now : Time
    pub draw : e.float.Float
    pub result : JobResult

  -- The results are processed one after the other.
  abbrev pub settle_all : Service e → List Arrival → World e → World e
  settle_all svc [] w = w
  settle_all svc (a ∷ rest) w = settle_all svc rest (process_result e svc a.now a.draw a.result w).1

  -- The database reports no error for the updates of the invocations that the results lead to.
  abbrev pub Accepted : Service e → List Arrival → World e → Type 0
  Accepted svc [] w = Unit {0}
  Accepted svc (a ∷ rest) w =
      ((e.postgres.exec (update "invocations" (verdict svc a.result) "id" (row_key a.result))
          w.db).0
        ≡ ok tt)
      × Accepted svc rest (process_result e svc a.now a.draw a.result w).1

  -- The status that the last of the results about a row calls for, and `old` if there is none.
  abbrev pub last_status : Service e → Value → List Arrival → Value → Value
  last_status svc id [] old = old
  last_status svc id (a ∷ rest) old =
      last_status svc id rest
        (if same (row_key a.result) id then text (status_of svc a.result) else old)

  -- A row after all of the results.
  abbrev pub settled : Service e → List Arrival → Row → Row
  settled svc [] r = r
  settled svc (a ∷ rest) r =
      settled svc rest
        (if has "id" (row_key a.result) r then set_all (verdict svc a.result) r else r)

  cells_of :
      (status : String) (duration : ℤ) (message : String) (r : Row)
      → (cell (set_all (columns_of status duration message) r) "status" ≡ text status)
        × (cell (set_all (columns_of status duration message) r) "id" ≡ cell r "id")
  cells_of status duration message r =
      let first = assign "error_message" (text message) r in
      let second = assign "duration_ms" (int duration) first in
      (
        ap (λ found. elim found [ none ↦ null | some v ↦ v ])
            (lookup-assign "status" "status" (text status) second),
        ap (λ found. elim found [ none ↦ null | some v ↦ v ])
            (lookup-assign "status" "id" (text status) second
              ∙ lookup-assign "duration_ms" "id" (int duration) first
              ∙ lookup-assign "error_message" "id" (text message) r),
      )

  verdict_cells :
      (svc : Service e) (result : JobResult) (r : Row)
      → (cell (set_all (verdict svc result) r) "status" ≡ text (status_of svc result))
        × (cell (set_all (verdict svc result) r) "id" ≡ cell r "id")
  verdict_cells svc result r = elim (Bool-cases (succeeded e result)) [
    | inl good ↦ rw (good) (cells_of "SUCCESS" result.duration_ms "" r)
    | inr bad ↦
        elim (Bool-cases
          (should_retry e.float svc.retry_policy (retry_job e svc result).retry_count)) [
            | inl again ↦ rw (bad, again) (cells_of "RETRYING" (pos 0) result.error r)
            | inr last ↦ rw (bad, last) (cells_of "FAILED" result.duration_ms result.error r)
          ]
  ]

  same_null : (v : Value) → same v null ≡ false
  same_null (text a) = refl
  same_null (int a) = refl
  same_null (uuid a) = refl
  same_null (bool a) = refl
  same_null (time a) = refl
  same_null null = refl

  held : Option Value → Value
  held none = null
  held (some v) = v

  holds : Value → Option Value → Bool
  holds v none = false
  holds v (some w) = same v w

  holds_lem : (v : Value) (found : Option Value) → holds v found ≡ same v (held found)
  unfolding holds held
  holds_lem v none = sym (same_null v)
  holds_lem v (some w) = refl

  has-cell : (v : Value) (r : Row) → has "id" v r ≡ same v (cell r "id")
  unfolding holds held
  has-cell v r = holds_lem v (lookup "id" r)

  settled_status :
      (svc : Service e) (arrivals : List Arrival) (r : Row)
      → cell (settled svc arrivals r) "status"
        ≡ last_status svc (cell r "id") arrivals (cell r "status")
  settled_status svc [] r = refl
  settled_status svc (a ∷ rest) r = elim (Bool-cases (has "id" (row_key a.result) r)) [
    | inl here ↦
        let after = set_all (verdict svc a.result) r in
        let (status, id) = verdict_cells svc a.result r in
        rw (here, sym (has-cell (row_key a.result) r) ∙ here)
          (settled_status svc rest after
            ∙ ap (λ key. last_status svc key rest (cell after "status")) id
            ∙ ap (λ old. last_status svc (cell r "id") rest old) status)
    | inr elsewhere ↦
        rw (elsewhere, sym (has-cell (row_key a.result) r) ∙ elsewhere) (settled_status svc rest r)
  ]

  map_still : (svc : Service e) (rs : List Row) → map (settled svc []) rs ≡ rs
  map_still svc [] = refl
  map_still svc (r ∷ rs) = ap (◌∷◌ r) (map_still svc rs)

  map_twice : (g h : Row → Row) (rs : List Row) → map g (map h rs) ≡ map (λ r. g (h r)) rs
  map_twice g h [] = refl
  map_twice g h (r ∷ rs) = ap (◌∷◌ (g (h r))) (map_twice g h rs)

  module _ (laws : IsPostgres e.postgres) where
    settle_all_rows :
        (svc : Service e) (arrivals : List Arrival) (w : World e)
        → Accepted svc arrivals w
        → e.postgres.rows (settle_all svc arrivals w).db "invocations"
          ≡ map (settled svc arrivals) (e.postgres.rows w.db "invocations")
    settle_all_rows svc [] w accepted = sym (map_still svc (e.postgres.rows w.db "invocations"))
    settle_all_rows svc (a ∷ rest) w accepted =
        settle_all_rows svc rest (process_result e svc a.now a.draw a.result w).1 accepted.1
        ∙ ap (map (settled svc rest)) (
            process_result_db laws svc a.now a.draw a.result w
            ∙ laws.update_ok w.db "invocations" (verdict svc a.result) "id" (row_key a.result)
                accepted.0)
        ∙ map_twice (settled svc rest)
            (λ r. if has "id" (row_key a.result) r then set_all (verdict svc a.result) r else r)
            (e.postgres.rows w.db "invocations")

    -- If the database reports no error for the updates that the results lead to, processing them one
    -- after the other changes no row but by the results that name it: it leaves the table's rows, in their order,
    -- and the status of each is the one that the last result about it calls for, or is as it was if
    -- there is none. A success or a failure is no final status: a later result replaces it.
    pub settle_all-last_status :
        (svc : Service e) (arrivals : List Arrival) (w : World e)
        → Accepted svc arrivals w
        → (e.postgres.rows (settle_all svc arrivals w).db "invocations"
            ≡ map (settled svc arrivals) (e.postgres.rows w.db "invocations"))
          × ((r : Row)
              → cell (settled svc arrivals r) "status"
                ≡ last_status svc (cell r "id") arrivals (cell r "status"))
    settle_all-last_status svc arrivals w accepted =
        (settle_all_rows svc arrivals w accepted, settled_status svc arrivals)
