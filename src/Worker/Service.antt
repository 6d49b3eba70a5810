-- ===== src/Worker/Service.antt =====
-- internal/worker/service.go: the worker's polling step, and its heartbeat.
use Prim.Native.String.{◌++◌ as str_append, slice}
use nimbus_run_a_self_hosted.Prelude.{ℕ, suc, ◌/◌, String, none, some, List, [], ◌∷◌, lookup}
use nimbus_run_a_self_hosted.Prelude.Exec.{
  panicked, ok, err, Exec, pure, raise, ignore, wrap_with, ◌>>=◌, ◌>>◌,
}
use nimbus_run_a_self_hosted.Prelude.Int.{ℤ, pos, negsuc, minus}
use nimbus_run_a_self_hosted.Platform.Data.{Uuid, UuidLib, Codec, Time, text_or_empty}
use nimbus_run_a_self_hosted.Platform.Docker.{Docker}
use nimbus_run_a_self_hosted.Platform.Redis.{Redis, Message, StreamReply}
use nimbus_run_a_self_hosted.Worker.Runner.{RunRequest, run}

pub record Job : Type 0 where
  pub invocation_id : String
  pub function_id : String
  pub version_id : String
  pub image_uri : String
  pub entrypoint : String
  pub payload : String
  pub memory_limit_mb : ℤ
  pub cpu_limit_millicores : ℤ
  pub timeout_seconds : ℤ
  pub retry_count : ℤ
  pub idempotency_key : String

pub record JobResult : Type 0 where
  pub exit_code : ℤ
  pub duration : ℤ
  pub stdout : String
  pub stderr : String

-- The map that `publishResult` encodes.
pub record Published : Type 0 where
  pub invocation_id : String
  pub function_id : String
  pub version_id : String
  pub status : String
  pub exit_code : ℤ
  pub duration_ms : ℤ
  pub stdout : String
  pub stderr : String
  pub worker_id : String
  pub timestamp : ℤ

pub record HeartbeatInfo (F : Type 0) : Type 0 where
  pub worker_id : String
  pub hostname : String
  pub cpu_usage : F
  pub memory_usage : F
  pub running_tasks : ℤ
  pub available_slots : ℤ
  pub timestamp : ℤ

-- What a worker process is given: its libraries and its clock. `elapsed` is the time that a
-- container takes, and `now` the wall clock, for all of one step.
pub record Host : Type 1 where
  pub redis : Redis
  pub docker : Docker
  pub uuids : UuidLib
  pub jobs : Codec Job
  pub published : Codec Published

pub record Machine (h : Host) : Type 0 where
  pub redis : h.redis.State
  pub docker : h.docker.State
  pub drawn : ℕ

-- A Duration in milliseconds, rounded towards 0.
abbrev pub millis : ℤ → ℤ
millis (pos n) = pos (n / 1000000)
millis (negsuc n) = minus 0 (suc n / 1000000)

-- `t.UnixMilli()`, rounded down.
abbrev pub unix_milli : Time → ℤ
unix_milli (pos n) = pos (n / 1000000)
unix_milli (negsuc n) = negsuc (n / 1000000)

-- The fields of the service that are not connections.
pub record Service : Type 0 where
  pub worker_id : String
  pub queue_name : String
  pub consumer_name : String

module _ (h : Host) where
  abbrev pub on_redis : {A : Type 0} → Exec h.redis.State A → Exec (Machine h) A
  on_redis m w = ((m w.redis).0, record w { redis = (m w.redis).1 })

  abbrev pub on_docker : {A : Type 0} → Exec h.docker.State A → Exec (Machine h) A
  on_docker m w = ((m w.docker).0, record w { docker = (m w.docker).1 })

  abbrev pub draw_id : Exec (Machine h) Uuid
  draw_id w = (ok (h.uuids.created w.drawn), record w { drawn = suc w.drawn })

  unfoldable pub run_request : Job → Uuid → Uuid → RunRequest
  run_request job invocation_id name_id = record {
    invocation_id = invocation_id;
    image_uri = job.image_uri;
    entrypoint = job.entrypoint;
    payload = job.payload;
    memory_limit_mb = job.memory_limit_mb;
    cpu_limit_millicores = job.cpu_limit_millicores;
    timeout_seconds = job.timeout_seconds;
    container_name = str_append "nimbus-" (slice (h.uuids.format name_id) 0 8);
    max_pids_value = pos 0;
  }

  unfoldable pub execute_job : ℤ → Job → Exec (Machine h) JobResult
  execute_job elapsed job = do
    invocation_id ← draw_id
    name_id ← draw_id
    result ← on_docker (run h.docker elapsed (run_request job invocation_id name_id))
    pure (record {
      exit_code = result.exit_code;
      duration = result.duration;
      stdout = result.stdout;
      stderr = result.stderr;
    })

  unfoldable pub published_result : Service → Time → Job → JobResult → Published
  published_result svc now job result = record {
    invocation_id = job.invocation_id;
    function_id = job.function_id;
    version_id = job.version_id;
    status = "SUCCESS";
    exit_code = result.exit_code;
    duration_ms = millis result.duration;
    stdout = result.stdout;
    stderr = result.stderr;
    worker_id = svc.worker_id;
    timestamp = unix_milli now;
  }

  unfoldable pub publish_result : Service → Time → Job → JobResult → Exec (Machine h) (Unit {0})
  publish_result svc now job result = do
    on_redis (
        h.redis.x_add "nimbusrun:results" (
          ("data", text_or_empty (h.published.marshal (published_result svc now job result))) ∷ []))
    pure tt

  unfoldable pub ack : Service → String → Exec (Machine h) (Unit {0})
  ack svc id = ignore (on_redis (h.redis.x_ack svc.queue_name svc.worker_id id))

  -- The body of the loop of `processNextJob`. A message with no `data` fails the type assertion.
  unfoldable pub handle_message : Service → ℤ → Time → Message → Exec (Machine h) (Unit {0})
  handle_message svc elapsed now msg = elim (lookup "data" msg.values) [
    | none ↦ raise (panicked "interface conversion: interface {} is nil, not string")
    | some text ↦ elim (h.jobs.unmarshal text) [
      | err cause ↦ ack svc msg.id
      | ok job ↦ do
        result ← execute_job elapsed job
        ignore (publish_result svc now job result)
        ack svc msg.id
    ]
  ]

  unfoldable pub handle_messages : Service → ℤ → Time → List Message → Exec (Machine h) (Unit {0})
  handle_messages svc elapsed now [] = pure tt
  handle_messages svc elapsed now (msg ∷ rest) = do
    handle_message svc elapsed now msg
    handle_messages svc elapsed now rest

  unfoldable pub handle_streams :
      Service → ℤ → Time → List StreamReply → Exec (Machine h) (Unit {0})
  handle_streams svc elapsed now [] = pure tt
  handle_streams svc elapsed now (stream ∷ rest) = do
    handle_messages svc elapsed now stream.messages
    handle_streams svc elapsed now rest

  unfoldable pub process_next_job : Service → ℤ → Time → Exec (Machine h) (Unit {0})
  process_next_job svc elapsed now = do
    reply ←
        wrap_with "reading from stream"
          (on_redis (h.redis.x_read_group svc.worker_id svc.consumer_name svc.queue_name 1))
    elim reply [ none ↦ pure tt | some streams ↦ handle_streams svc elapsed now streams ]

  unfoldable pub send_heartbeat :
      {F : Type 0} → Codec (HeartbeatInfo F) → HeartbeatInfo F → Exec (Machine h) (Unit {0})
  send_heartbeat c info = do
    on_redis (h.redis.x_add "nimbusrun:heartbeats" (("data", text_or_empty (c.marshal info)) ∷ []))
    pure tt
