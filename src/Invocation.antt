-- ===== src/Invocation.antt =====
-- internal/invocation/service.go: submitting an invocation, and settling its result.
pub mod Resolving
pub mod Sending
pub mod Submitting
pub mod Duplicates
pub mod Settling
pub mod Statuses
pub mod Known
pub mod Extension
use Prim.Native.String.{◌++◌ as str_append}
use nimbus_run_a_self_hosted.Prelude.{
  ℕ, ◌*◌, String, Bool, true, false, not, ◌||◌, Option, none, some, List, [], ◌∷◌, ◌++◌, ◌==◌,
  str_eq, if◌then◌else◌,
}
use nimbus_run_a_self_hosted.Prelude.Exec.{
  Error, errorf, panicked, wrapped, Result, ok, err, Exec, pure, raise, attempt, ignore, wrap_with,
  finally, ◌>>=◌, ◌>>◌,
}
use nimbus_run_a_self_hosted.Prelude.Int.{ℤ, pos, ◌+ℤ◌, eqb_ℤ}
use nimbus_run_a_self_hosted.Platform.Data.{Uuid, nil_uuid, Time, zero_time, second}
use nimbus_run_a_self_hosted.Models.{Function, FunctionVersion, Invocation}
use nimbus_run_a_self_hosted.Queue.Types.{Job, JobResult}
use nimbus_run_a_self_hosted.Queue.Stream.{RedisStreamQueue, error_text, enqueue_job}
use nimbus_run_a_self_hosted.Retry.Backoff.{Config, calculate, should_retry}
use nimbus_run_a_self_hosted.Retry.Dlq
use nimbus_run_a_self_hosted.Idempotency.{ResultCache, check, store, acquire_lock, release_lock}
use nimbus_run_a_self_hosted.Repository.Functions
use nimbus_run_a_self_hosted.Repository.Versions
use nimbus_run_a_self_hosted.Repository.Invocations
use nimbus_run_a_self_hosted.Env.{Env, World, Timer, on_redis, on_db, draw_id, parsed_id}

pub record InvokeRequest : Type 0 where
  pub function_id : Uuid
  pub idempotency_key : String
  pub payload : String

pub record InvokeResult : Type 0 where
  pub invocation_id : Uuid
  pub status : String
  pub message : String
  pub is_duplicate : Bool

abbrev pub lock_ttl : ℕ
lock_ttl = 30 * second

module _ (e : Env) where
  -- The fields of the service that are not connections.
  pub record Service : Type 0 where
    pub job_queue : RedisStreamQueue
    pub retry_policy : Config e.float

  unfoldable pub new_invocation : Uuid → Function → FunctionVersion → String → Invocation
  new_invocation id fn ver key = record {
    id = id;
    function_id = fn.id;
    version_id = ver.id;
    worker_id = nil_uuid;
    status = "PENDING";
    duration_ms = pos 0;
    cold_start = false;
    retry_count = pos 0;
    error_msg = "";
    idemp_key = key;
    created_at = zero_time;
  }

  unfoldable pub build_job :
      Service → Time → Uuid → Uuid → Function → FunctionVersion → InvokeRequest → Job
  build_job svc now id inv_id fn ver req = record {
    id = id;
    invocation_id = e.uuids.format inv_id;
    function_id = e.uuids.format fn.id;
    version_id = e.uuids.format ver.id;
    image_uri = ver.image_uri;
    entrypoint = fn.entrypoint;
    payload = req.payload;
    memory_limit_mb = fn.memory_limit;
    cpu_limit_millicores = fn.cpu_limit;
    timeout_seconds = fn.timeout;
    retry_count = pos 0;
    max_retries = svc.retry_policy.max_retries;
    idempotency_key = req.idempotency_key;
    worker_id = "";
    created_at = now;
  }

  -- The function and its active version, which must be ready.
  unfoldable pub resolve : Uuid → Exec (World e) (Function × FunctionVersion)
  resolve function_id = do
    fn ← wrap_with "function not found" (on_db e (Functions.get_by_id e.postgres function_id))
    if fn.active_version_id == nil_uuid
        then raise (errorf "no active version set for function")
        else do
          ver ←
              wrap_with "active version not found"
                (on_db e (Versions.get_by_id e.postgres fn.active_version_id))
          if str_eq ver.status "READY"
              then pure (fn, ver)
              else raise (errorf (str_append "function version not ready: " ver.status))

  -- `Invoke` from the enqueuing of the job on.
  unfoldable pub send : Service → InvokeRequest → Uuid → Job → Exec (World e) InvokeResult
  send svc req inv_id job = do
    sent ← attempt (on_redis e (enqueue_job e.redis svc.job_queue e.uuids e.jobs job))
    elim sent [
      | err cause ↦ do
        ignore (
            on_db e
              (Invocations.update_status e.postgres inv_id "FAILED" (pos 0) (error_text cause)))
        raise (wrapped "enqueuing job" cause)
      | ok _ ↦ do
        if str_eq req.idempotency_key ""
            then pure tt
            else ignore (
                on_redis e (
                  store e.redis e.caches req.idempotency_key (e.uuids.format inv_id) "PENDING" ""
                    ""))
        pure (record {
          invocation_id = inv_id;
          status = "PENDING";
          message = "Invocation queued successfully";
          is_duplicate = false;
        })
    ]

  -- `Invoke` from the lookup of the function on.
  unfoldable pub submit : Service → Time → InvokeRequest → Exec (World e) InvokeResult
  submit svc now req = do
    found ← resolve req.function_id
    inv_id ← draw_id e
    wrap_with "creating invocation record" (
        on_db e (
          Invocations.create e.postgres
            (new_invocation inv_id found.0 found.1 req.idempotency_key)))
    job_id ← draw_id e
    send svc req inv_id (build_job svc now job_id inv_id found.0 found.1 req)

  -- An error of the check is logged, and counts as a miss.
  abbrev pub hit : Result (Option ResultCache) → Option ResultCache
  hit (ok cached) = cached
  hit (err cause) = none

  -- `uuid.MustParse`
  abbrev pub must_parse : Result Uuid → Exec (World e) Uuid
  must_parse (ok id) = pure id
  must_parse (err cause) = raise (panicked "uuid: Parse")

  unfoldable pub duplicate : ResultCache → Exec (World e) InvokeResult
  duplicate cached = do
    id ← must_parse (e.uuids.parse cached.invocation_id)
    pure (record {
      invocation_id = id;
      status = cached.status;
      message = "Duplicate request — returning cached result";
      is_duplicate = true;
    })

  -- Under the lock; the deferred release is given the empty token.
  unfoldable pub submit_locked : Service → Time → InvokeRequest → Exec (World e) InvokeResult
  submit_locked svc now req = do
    token ← draw_id e
    lock ← on_redis e (acquire_lock e.redis req.idempotency_key (e.uuids.format token) lock_ttl)
    if lock.0
        then finally (submit svc now req) (on_redis e (release_lock e.redis req.idempotency_key ""))
        else raise (errorf "concurrent request with same idempotency key")

  unfoldable pub invoke : Service → Time → InvokeRequest → Exec (World e) InvokeResult
  invoke svc now req = if str_eq req.idempotency_key "" then submit svc now req else do
    checked ← attempt (on_redis e (check e.redis e.caches req.idempotency_key))
    elim (hit checked) [ some cached ↦ duplicate cached | none ↦ submit_locked svc now req ]

  -- The job that `ProcessResult` builds from a failed result.
  unfoldable pub retry_job : Service → JobResult → Job
  retry_job svc result = record {
    id = nil_uuid;
    invocation_id = result.invocation_id;
    function_id = result.function_id;
    version_id = result.version_id;
    image_uri = "";
    entrypoint = "";
    payload = "null";
    memory_limit_mb = pos 0;
    cpu_limit_millicores = pos 0;
    timeout_seconds = pos 0;
    retry_count = result.duration_ms;
    max_retries = svc.retry_policy.max_retries;
    idempotency_key = "";
    worker_id = "";
    created_at = zero_time;
  }

  unfoldable pub schedule : ℤ → Job → Exec (World e) (Unit {0})
  schedule delay job w =
      (ok tt, record w { timers = w.timers ++ record { delay = delay; job = job } ∷ [] })

  unfoldable pub settle_success : JobResult → Exec (World e) (Unit {0})
  settle_success result = do
    ignore (
        on_db e (
          Invocations.update_status e.postgres (parsed_id e.uuids result.invocation_id) "SUCCESS"
            result.duration_ms ""))
    if str_eq result.invocation_id ""
        then pure tt
        else ignore
            (on_redis e (store e.redis e.caches "" result.invocation_id "SUCCESS" result.stdout ""))

  -- `draw` is what `rand.Float64` returns in the call.
  unfoldable pub settle_retry :
      Service → e.float.Float → JobResult → Job → Exec (World e) (Unit {0})
  settle_retry svc draw result job = do
    schedule (calculate e.float svc.retry_policy draw job.retry_count)
        (record job { retry_count = job.retry_count +ℤ pos 1 })
    ignore (
        on_db e (
          Invocations.update_status e.postgres (parsed_id e.uuids result.invocation_id) "RETRYING"
            (pos 0) result.error))

  unfoldable pub settle_failure : Service → Time → JobResult → Job → Exec (World e) (Unit {0})
  settle_failure svc now result job = do
    ignore (
        on_db e (
          Invocations.update_status e.postgres (parsed_id e.uuids result.invocation_id) "FAILED"
            result.duration_ms result.error))
    ignore (Dlq.enqueue e svc.job_queue now job result.error)
    ignore (on_redis e (store e.redis e.caches "" result.invocation_id "FAILED" "" result.error))

  unfoldable pub process_result :
      Service → Time → e.float.Float → JobResult → Exec (World e) (Unit {0})
  process_result svc now draw result =
      if str_eq result.status "SUCCESS" || eqb_ℤ result.exit_code (pos 0)
      then settle_success result
      else let job = retry_job svc result in
        if should_retry e.float svc.retry_policy job.retry_count
        then settle_retry svc draw result job
        else settle_failure svc now result job

  -- A timer of `ProcessResult` fires.
  unfoldable pub fire : Service → Timer → Exec (World e) (Unit {0})
  fire svc timer = ignore (on_redis e (enqueue_job e.redis svc.job_queue e.uuids e.jobs timer.job))

  unfoldable pub get_invocation : Uuid → Exec (World e) Invocation
  get_invocation inv_id = on_db e (Invocations.get_by_id e.postgres inv_id)

  unfoldable pub list_invocations : Uuid → ℤ → Exec (World e) (List Invocation)
  list_invocations fn_id limit = on_db e (Invocations.list_by_function_id e.postgres fn_id limit)
