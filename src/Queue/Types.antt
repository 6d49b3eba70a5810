-- ===== src/Queue/Types.antt =====
-- internal/queue/types.go: what travels through the streams. A payload is its JSON text, which the
-- program hands on and never looks into.
use nimbus_run_a_self_hosted.Prelude.{String}
use nimbus_run_a_self_hosted.Prelude.Int.{ℤ}
use nimbus_run_a_self_hosted.Platform.Data.{Uuid, Time}

pub record Job : Type 0 where
  pub id : Uuid
  pub invocation_id : String
  pub function_id : String
  pub version_id : String
  pub image_uri : String
  pub entrypoint : String
  pub payload : String
  pub memory_limit_mb : ℤ
  pub cpu_limit_millicores : ℤ
  pub timeout_seconds : ℤ
  pub retry_count : ℤ
  pub max_retries : ℤ
  pub idempotency_key : String
  pub worker_id : String
  pub created_at : Time

pub record QueuedJob : Type 0 where
  pub id : String
  pub job : Job
  pub claim : String

pub record JobResult : Type 0 where
  pub invocation_id : String
  pub function_id : String
  pub version_id : String
  pub status : String
  pub exit_code : ℤ
  pub duration_ms : ℤ
  pub stdout : String
  pub stderr : String
  pub worker_id : String
  pub error : String
  pub message_id : String
  pub timestamp : Time

pub record WorkerHeartbeat (F : Type 0) : Type 0 where
  pub worker_id : String
  pub hostname : String
  pub cpu_usage : F
  pub memory_usage : F
  pub running_tasks : ℤ
  pub available_slots : ℤ
  pub total_slots : ℤ
  pub timestamp : ℤ
