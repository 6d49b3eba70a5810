-- ===== src/Invocation/Settling.antt =====
-- internal/invocation/service.go: what `ProcessResult` leaves behind.
use nimbus_run_a_self_hosted.Prelude.{
  String, ◌≡◌, Bool, ◌||◌, List, [], ◌∷◌, ◌++◌, str_eq, if◌then◌else◌, arith, inl, inr, Bool-cases,
}
use nimbus_run_a_self_hosted.Prelude.Exec.{ok}
use nimbus_run_a_self_hosted.Prelude.Int.{pos, ◌+ℤ◌, eqb_ℤ}
use nimbus_run_a_self_hosted.Platform.Data.{text_or_empty, Time, Uuid, unix, nil_uuid, zero_time}
use nimbus_run_a_self_hosted.Platform.Redis.{IsRedis}
use nimbus_run_a_self_hosted.Queue.Types.{Job, JobResult}
use nimbus_run_a_self_hosted.Queue.Stream.{RedisStreamQueue, dlq_stream, enqueue_dlq}
use mathlib.Core.List.{append-nil}
use nimbus_run_a_self_hosted.Retry.Backoff.{calculate, should_retry}
use nimbus_run_a_self_hosted.Retry.Dlq
use nimbus_run_a_self_hosted.Env.{Env, World, Timer}
use nimbus_run_a_self_hosted.Idempotency.{store}
use nimbus_run_a_self_hosted.Invocation.{
  Service, retry_job, schedule, settle_success, settle_retry, settle_failure, process_result,
}

module _ (e : Env) where
  -- What `ProcessResult` takes for a success.
  abbrev pub succeeded : JobResult → Bool
  succeeded result = str_eq result.status "SUCCESS" || eqb_ℤ result.exit_code (pos 0)

  -- A further attempt at the invocation of a result: its ids are those of the result, and the rest
  -- of the failed job, its payload and its limits among it, is not known any more.
  abbrev pub next_attempt : Service e → JobResult → Job
  next_attempt svc result = record {
    id = nil_uuid;
    invocation_id = result.invocation_id;
    function_id = result.function_id;
    version_id = result.version_id;
    image_uri = "";
    entrypoint = "";
    payload = "null";
    memory_limit_mb = pos 0;
    cpu_limit_millicores = pos 0;
    timeout_seconds = pos 0;
    retry_count = result.duration_ms +ℤ pos 1;
    max_retries = svc.retry_policy.max_retries;
    idempotency_key = "";
    worker_id = "";
    created_at = zero_time;
  }

  -- The retry that a result asks for: none for a success, nor when the retries are used up. The
  -- result's duration in milliseconds counts as the attempts made.
  abbrev pub retries : Service e → e.float.Float → JobResult → List Timer
  retries svc draw result =
      if succeeded result
      then []
      else if should_retry e.float svc.retry_policy result.duration_ms
      then record {
        delay = calculate e.float svc.retry_policy draw result.duration_ms;
        job = next_attempt svc result;
      }
        ∷ []
      else []

  -- Processing a result never reports an error. If the result is a failure and the policy allows
  -- another attempt, counting the result's duration in milliseconds as the attempts made, it starts
  -- one timer, with the delay of the policy for that count and a job with the ids of the result's
  -- invocation, function and version, a count greater by one, and no image, entry point, payload or
  -- limits; otherwise it starts none.
  pub process_result-timers :
      (svc : Service e) (now : Time) (draw : e.float.Float) (result : JobResult) (w : World e)
      → ((process_result e svc now draw result w).0 ≡ ok tt)
        × ((process_result e svc now draw result w).1.timers ≡ w.timers ++ retries svc draw result)
  unfolding process_result settle_success settle_retry settle_failure schedule store Dlq.enqueue
      retry_job
  process_result-timers svc now draw result w = elim (Bool-cases (succeeded result)) [
    | inl good ↦ ground (arith, good, append-nil w.timers)
    | inr bad ↦ elim (Bool-cases (should_retry e.float svc.retry_policy result.duration_ms)) [
      | inl again ↦ ground (arith, bad, again)
      | inr last ↦ ground (arith, bad, last, append-nil w.timers)
    ]
  ]

  module _ (laws : IsRedis e.redis) where
    enqueue_dlq_value :
        (q : RedisStreamQueue) (fresh : Uuid) (job : Job) (msg k : String) (now : Time)
        (s : e.redis.State)
        → e.redis.call_get k (enqueue_dlq e.redis q e.uuids e.jobs fresh (unix now) job msg s).1
          ≡ e.redis.call_get k s
    unfolding enqueue_dlq
    enqueue_dlq_value q fresh job msg k now s = ground (
      arith,
      laws.x_add_value s (dlq_stream e.redis q)
          (("job_id", e.uuids.format fresh)
            ∷ ("data", text_or_empty (e.jobs.marshal job))
            ∷ ("error", msg)
            ∷ ("timestamp", e.redis.format_int (unix now))
            ∷ [])
          k,
    )

    -- Processing a result changes no text key of Redis: no idempotency key ever gets the result.
    pub process_result_value :
        (svc : Service e) (now : Time) (draw : e.float.Float) (result : JobResult) (w : World e)
        (k : String)
        → e.redis.call_get k (process_result e svc now draw result w).1.redis
          ≡ e.redis.call_get k w.redis
    unfolding process_result settle_success settle_retry settle_failure schedule store Dlq.enqueue
    process_result_value svc now draw result w k = elim (Bool-cases (succeeded result)) [
      | inl good ↦ ground (arith, good)
      | inr bad ↦ ground (
        arith,
        bad,
        enqueue_dlq_value svc.job_queue (e.uuids.created w.drawn) (retry_job e svc result)
            result.error k now w.redis,
      )
    ]
