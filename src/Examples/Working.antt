-- ===== src/Examples/Working.antt =====
-- The properties of the worker at one message.
use nimbus_run_a_self_hosted.Prelude.{
  ◌≡◌, refl, subst, Bool, true, ◌&&◌, Option, some, List, [], ◌∷◌, All, str_eq, eq_iff, arith,
  lookup,
}
use nimbus_run_a_self_hosted.Prelude.Exec.{errorf, Result, ok, err}
use nimbus_run_a_self_hosted.Prelude.Loops.{Wake, context_done, woken}
use nimbus_run_a_self_hosted.Prelude.Int.{ℤ, pos, eqb_ℤ}
use nimbus_run_a_self_hosted.Platform.Data.{IsCodec}
use nimbus_run_a_self_hosted.Platform.Redis.{Message, StreamReply}
use nimbus_run_a_self_hosted.Queue.Delivery.{Gains, messages_of}
use nimbus_run_a_self_hosted.Worker.Runner.{run, wait_for, finish}
use nimbus_run_a_self_hosted.Worker.Service.{
  Host, Machine, Service, Job, JobResult, Published, execute_job, run_request, published_result,
  publish_result, handle_message,
}
use nimbus_run_a_self_hosted.Worker.Outcomes.{
  handle_message_acks, handle_message-Gains, handle_message_masks,
}
use nimbus_run_a_self_hosted.Worker.Loop.{Round, start}
use nimbus_run_a_self_hosted.Worker.Steady.{HasData, ReadsWell, start-first_done}
use nimbus_run_a_self_hosted.Examples.Server.{
  add_group, append, Server, memory, memory-IsRedis, blank_server,
}
use nimbus_run_a_self_hosted.Examples.Tables.{containers, stroke_ids, codec_of, codec_of-IsCodec}
use nimbus_run_a_self_hosted.Prelude.Int.{eqb_ℤ_eq}

abbrev pub hello : Job
hello = record {
  invocation_id = "i";
  function_id = "iii";
  version_id = "iiii";
  image_uri = "nimbus/hello:1";
  entrypoint = "main";
  payload = "{}";
  memory_limit_mb = pos 128;
  cpu_limit_millicores = pos 100;
  timeout_seconds = pos 30;
  retry_count = pos 0;
  idempotency_key = "";
}

abbrev pub worker : Service
worker = record { worker_id = "w1"; queue_name = "nimbusrun:jobs"; consumer_name = "worker-w1" }

abbrev done : JobResult
done = record { exit_code = pos 1; duration = pos 7; stdout = ""; stderr = "" }

-- What the worker publishes of a result with this exit code.
abbrev pub told : ℤ → Published
told code = record {
  invocation_id = "i";
  function_id = "iii";
  version_id = "iiii";
  status = "SUCCESS";
  exit_code = code;
  duration_ms = pos 0;
  stdout = "";
  stderr = "";
  worker_id = "w1";
  timestamp = pos 9;
}

abbrev pub same_told : ℤ → Published → Bool
same_told code p =
    str_eq p.invocation_id "i"
    && str_eq p.function_id "iii"
    && str_eq p.version_id "iiii"
    && str_eq p.status "SUCCESS"
    && eqb_ℤ p.exit_code code
    && eqb_ℤ p.duration_ms (pos 0)
    && str_eq p.stdout ""
    && str_eq p.stderr ""
    && str_eq p.worker_id "w1"
    && eqb_ℤ p.timestamp (pos 9)

told_only : (code : ℤ) (p : Published) → same_told code p ≡ true → told code ≡ p
told_only code p e = ground (
  arith,
  e,
  eq_iff p.invocation_id "i",
  eq_iff p.function_id "iii",
  eq_iff p.version_id "iiii",
  eq_iff p.status "SUCCESS",
  eq_iff p.stdout "",
  eq_iff p.stderr "",
  eq_iff p.worker_id "w1",
  eqb_ℤ_eq p.exit_code code,
  eqb_ℤ_eq p.duration_ms (pos 0),
  eqb_ℤ_eq p.timestamp (pos 9),
)

-- A worker that takes this job from every message.
abbrev pub host : Job → ℤ → Host
host job code = record {
  redis = memory;
  docker = containers;
  uuids = stroke_ids;
  jobs = record { marshal = λ j. ok "{}"; unmarshal = λ t. ok job };
  published = codec_of (same_told code) (told code);
}

told-IsCodec : (code : ℤ) → IsCodec (codec_of (same_told code) (told code))
told-IsCodec code = codec_of-IsCodec (same_told code) (told code) (told_only code)

abbrev pub machine : (job : Job) (code : ℤ) → Machine (host job code)
machine job code = record { redis = blank_server; docker = 0; drawn = 0 }

abbrev pub job_message : Message
job_message = record { id = "1-0"; values = ("job_id", "ii") ∷ ("data", "{}") ∷ [] }

handle_message_acks_example :
    ((handle_message
        (host hello (pos 1))
        worker
        (pos 7)
        (pos 9000000)
        job_message
        (machine hello (pos 1))).0
      ≡ ok tt)
    × (s : (host hello (pos 1)).redis.State) × ((handle_message
          (host hello (pos 1))
          worker
          (pos 7)
          (pos 9000000)
          job_message
          (machine hello (pos 1))).1.redis
        ≡ (memory.x_ack "nimbusrun:jobs" "w1" "1-0" s).1)
unfolding lookup
handle_message_acks_example =
    handle_message_acks (host hello (pos 1)) worker (pos 7) (pos 9000000) job_message "{}"
      (machine hello (pos 1)) refl

handle_message-Gains_example :
    Gains memory
      (host hello (pos 1)).published
      blank_server
      (handle_message
        (host hello (pos 1))
        worker
        (pos 7)
        (pos 9000000)
        job_message
        (machine hello (pos 1))).1.redis
      "nimbusrun:results"
      (published_result (host hello (pos 1)) worker (pos 9000000) hello done)
unfolding lookup execute_job run run_request wait_for finish published_result publish_result
handle_message-Gains_example =
    handle_message-Gains (host hello (pos 1)) memory-IsRedis (told-IsCodec (pos 1)) worker (pos 7)
      (pos 9000000) job_message "{}" "{}" hello done (machine hello (pos 1)) refl refl refl refl
      refl

abbrev unnamed : Job
unnamed = record hello { image_uri = "" }

handle_message_masks_example :
    (p : Published) × Gains memory
      (host unnamed (pos 0)).published
      blank_server
      (handle_message
        (host unnamed (pos 0))
        worker
        (pos 7)
        (pos 9000000)
        job_message
        (machine unnamed (pos 0))).1.redis
      "nimbusrun:results"
      p
    × (p.status ≡ "SUCCESS")
    × (p.exit_code ≡ pos 0)
unfolding lookup execute_job run run_request published_result publish_result
handle_message_masks_example =
    handle_message_masks (host unnamed (pos 0)) memory-IsRedis (told-IsCodec (pos 0)) worker (pos 7)
      (pos 9000000) job_message "{}" "{}" unnamed (errorf "invalid reference format")
      (machine unnamed (pos 0)) refl refl refl refl refl

abbrev or_none : Result (Option (List StreamReply)) → List StreamReply
or_none (ok (some streams)) = streams
or_none _ = []

-- A Redis with one message, with data, for a worker that has its group.
abbrev supplied_redis : Server
supplied_redis = add_group "nimbusrun:jobs" "w1" (append "nimbusrun:jobs" job_message blank_server)

abbrev events : List (Wake (Machine (host hello (pos 1))) Round)
events =
    woken (λ w. w) (record { elapsed = pos 7; now = pos 9 })
    ∷ context_done (errorf "context canceled")
    ∷ []

first_read : ReadsWell (host hello (pos 1)) worker supplied_redis
unfolding lookup
first_read = record {
  read_calm = refl;
  read_full =
      λ streams e. subst (λ reply. All HasData (messages_of (or_none reply))) e (("{}", refl), tt);
}

start-first_done_example :
    (start
      (host hello (pos 1))
      worker
      events
      (record (machine hello (pos 1)) { redis = supplied_redis })).0
    ≡ some (err (errorf "context canceled"))
start-first_done_example =
    start-first_done (host hello (pos 1)) worker events
      (record (machine hello (pos 1)) { redis = supplied_redis }) (first_read, tt)
