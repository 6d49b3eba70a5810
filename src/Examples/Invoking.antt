-- ===== src/Examples/Invoking.antt =====
-- The properties of the invocation service at the sample request.
use nimbus_run_a_self_hosted.Prelude.{
  String, ◌≡◌, ◌≢◌, refl, some, List, [], ◌∷◌, ◌++◌, map, All, lookup, arith, eq_iff,
}
use nimbus_run_a_self_hosted.Prelude.Exec.{ok, err, errorf}
use nimbus_run_a_self_hosted.Prelude.Int.{pos}
use nimbus_run_a_self_hosted.Queue.Types.{JobResult}
use nimbus_run_a_self_hosted.Queue.Stream.{enqueue_job}
use nimbus_run_a_self_hosted.Repository.Rows.{scan_first}
use nimbus_run_a_self_hosted.Repository.Functions
use nimbus_run_a_self_hosted.Repository.Versions
use nimbus_run_a_self_hosted.Repository.Invocations
use nimbus_run_a_self_hosted.Platform.Data.{Uuid}
use nimbus_run_a_self_hosted.Examples.Tables.{with_table}
use nimbus_run_a_self_hosted.Env.{World}
use nimbus_run_a_self_hosted.Idempotency.{
  check, store, acquire_lock, release_lock, release_script, lock_key, idem_key,
}
use nimbus_run_a_self_hosted.Idempotency.Locks.{holder}
use nimbus_run_a_self_hosted.Invocation.{
  resolve, send, submit, submit_locked, invoke, new_invocation, build_job, process_result,
}
use nimbus_run_a_self_hosted.Prelude.Exec.{Error, wrapped}
use nimbus_run_a_self_hosted.Queue.Types.{Job}
use nimbus_run_a_self_hosted.Platform.Postgres.{Row, uuid, text, cell}
use nimbus_run_a_self_hosted.Invocation.Sending.{queued}
use nimbus_run_a_self_hosted.Invocation.Submitting.{Submitted, submit_succeeds}
use nimbus_run_a_self_hosted.Invocation.Duplicates.{
  answer, invoke-store, submit_locked_busy, submit_locked-holder,
}
use nimbus_run_a_self_hosted.Invocation.Settling.{
  process_result-timers, process_result_value, retries,
}
use nimbus_run_a_self_hosted.Invocation.Known.{IsWritten, retrying, settle_all-IsWritten}
use nimbus_run_a_self_hosted.Invocation.Statuses.{
  Arrival, settle_all, settled, last_status, settle_all-last_status,
}
use nimbus_run_a_self_hosted.Examples.Server.{memory, memory-IsRedis, blank_server, put}
use nimbus_run_a_self_hosted.Examples.Samples.{
  hello_job, env, env-IsEnv, service, request, shop, pending,
}

shop_submits : (submit env service (pos 9) request shop).0 ≡ ok (queued 1)
unfolding submit send resolve build_job new_invocation enqueue_job store Functions.get_by_id
    Functions.scan_function Versions.get_by_id Versions.scan_version Invocations.create scan_first
    lookup
shop_submits = refl

not_the_queue : service.job_queue.job_stream ≢ idem_key request.idempotency_key
unfolding idem_key
not_the_queue e = ground (arith, (eq_iff service.job_queue.job_stream "idem:order-1").1 e)

submit_succeeds_example : Submitted env env-IsEnv service (pos 9) request shop (queued 1)
submit_succeeds_example =
    submit_succeeds env env-IsEnv service (pos 9) request shop (queued 1) not_the_queue refl
      shop_submits

named : request.idempotency_key ≢ ""
named = λ e. ground (arith, (eq_iff request.idempotency_key "").1 e)

abbrev the_token : String
the_token = "i"

stroke_named : ¬ (the_token ≡ "")
stroke_named = λ e. ground (arith, (eq_iff the_token "").1 e)

-- The shop after the result of the sample request is stored.
abbrev stored_shop : World env
stored_shop = record shop { redis = put "idem:order-1" (some "{}") blank_server }

invoke-store_example :
    invoke env service (pos 9) request stored_shop ≡ (ok (answer 1 "PENDING"), stored_shop)
unfolding store check idem_key
invoke-store_example =
    invoke-store env env-IsEnv service (pos 9) request stored_shop blank_server 1 "PENDING" "" ""
      (some pending) named refl refl refl

-- The shop while another request has the lock of the key.
abbrev locked_shop : World env
locked_shop = record shop { redis = put "lock:order-1" (some "ii") blank_server }

submit_locked_busy_example :
    ((submit_locked env service (pos 9) request locked_shop).0
      ≡ err (errorf "concurrent request with same idempotency key"))
    × ((stream : String)
        → (submit_locked env service (pos 9) request locked_shop).1.redis.streams stream
          ≡ blank_server.streams stream)
    × ((submit_locked env service (pos 9) request locked_shop).1.db ≡ shop.db)
    × ((submit_locked env service (pos 9) request locked_shop).1.timers ≡ [])
unfolding lock_key
submit_locked_busy_example =
    submit_locked_busy env env-IsEnv service (pos 9) request locked_shop "ii" named refl

-- The shop once the sample request has the lock.
abbrev held_shop : World env
held_shop = record shop { redis = put "lock:order-1" (some "i") blank_server; drawn = 1 }

submit_locked-holder_example :
    ((submit_locked env service (pos 9) request shop).0
      ≡ (submit env service (pos 9) request held_shop).0)
    × (holder memory memory-IsRedis "order-1"
          (submit_locked env service (pos 9) request shop).1.redis
        ≡ some "i")
unfolding acquire_lock release_lock release_script lock_key submit send resolve build_job
    new_invocation enqueue_job store Functions.get_by_id Functions.scan_function Versions.get_by_id
    Versions.scan_version Invocations.create scan_first lookup
submit_locked-holder_example =
    submit_locked-holder env env-IsEnv service (pos 9) request shop
      (submit env service (pos 9) request held_shop).1
      (submit env service (pos 9) request held_shop).0 "i" named stroke_named refl refl refl refl

abbrev pub failed_result : JobResult
failed_result = record {
  invocation_id = "i";
  function_id = "iii";
  version_id = "iiii";
  status = "FAILED";
  exit_code = pos 1;
  duration_ms = pos 2;
  stdout = "";
  stderr = "boom";
  worker_id = "w1";
  error = "exit 1";
  message_id = "";
  timestamp = pos 9;
}

process_result-timers_example :
    ((process_result env service (pos 9) 0 failed_result shop).0 ≡ ok tt)
    × ((process_result env service (pos 9) 0 failed_result shop).1.timers
        ≡ [] ++ retries env service 0 failed_result)
process_result-timers_example = process_result-timers env service (pos 9) 0 failed_result shop

process_result_value_example :
    (process_result env service
        (pos 9)
        0
        (record failed_result { duration_ms = pos 3 })
        stored_shop).1.redis.values
      "idem:order-1"
    ≡ some "{}"
process_result_value_example =
    process_result_value env memory-IsRedis service (pos 9) 0
      (record failed_result { duration_ms = pos 3 }) stored_shop "idem:order-1"

-- A job that the sample codec cannot encode.
abbrev odd_job : Job
odd_job = record hello_job { id = 7 }

abbrev odd_cause : Error
odd_cause = wrapped "marshaling job" (errorf "unsupported value")

abbrev invocation_row : Uuid → String → Row
invocation_row id status = ("id", uuid id) ∷ ("status", text status) ∷ []

-- The shop with two invocations.
abbrev busy_shop : World env
busy_shop = record shop {
  db =
      with_table "invocations" (invocation_row 1 "PENDING" ∷ invocation_row 2 "RETRYING" ∷ [])
        shop.db;
}

-- The first invocation fails for good, and is then reported a success.
abbrev arrivals : List (Arrival env)
arrivals =
    record { now = pos 9; draw = 0; result = record failed_result { duration_ms = pos 3 } }
    ∷ record { now = pos 10; draw = 0; result = record failed_result { status = "SUCCESS" } }
    ∷ []

settle_all-last_status_example :
    ((settle_all env service arrivals busy_shop).db "invocations"
      ≡ map (settled env service arrivals) (busy_shop.db "invocations"))
    × ((r : Row)
        → cell (settled env service arrivals r) "status"
          ≡ last_status env service (cell r "id") arrivals (cell r "status"))
settle_all-last_status_example =
    settle_all-last_status env env-IsEnv.postgres_laws service arrivals busy_shop (refl, (refl, tt))

settle_all_runs : last_status env service (uuid 1) arrivals (text "PENDING") ≡ text "SUCCESS"
settle_all_runs = refl

settle_all-IsWritten_example :
    All
      (λ r. IsWritten (cell r "status"))
      ((settle_all env service arrivals busy_shop).db "invocations")
unfolding lookup
settle_all-IsWritten_example =
    settle_all-IsWritten env env-IsEnv.postgres_laws service arrivals busy_shop (refl, (refl, tt))
      (IsWritten.pending, (retrying, tt))
