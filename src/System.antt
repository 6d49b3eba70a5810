-- ===== src/System.antt =====
-- cmd/scheduler/main.go, cmd/worker/main.go and internal/invocation/service.go: the scheduler, the
-- workers and the invocation service at work over one Redis, in any order of their rounds and calls.
pub mod Runs
pub mod Idling
use nimbus_run_a_self_hosted.Prelude.{ℕ, ◌≡◌, List, ◌∷◌, ◌++◌}
use nimbus_run_a_self_hosted.Prelude.Exec.{Result, ok, err}
use nimbus_run_a_self_hosted.Platform.Data.{Time, Codec}
use nimbus_run_a_self_hosted.Platform.Float.{Float64}
use nimbus_run_a_self_hosted.Queue.Types.{Job, JobResult, WorkerHeartbeat}
use nimbus_run_a_self_hosted.Queue.Stream.{RedisStreamQueue}
use nimbus_run_a_self_hosted.Queue.Extension.{Extends}
use nimbus_run_a_self_hosted.Scheduler.Loops.{Round}
use nimbus_run_a_self_hosted.Scheduler.{
  Scheduler, new_scheduler, start, prepare_heartbeats, heartbeat_tick, dispatch_one_job,
}
use nimbus_run_a_self_hosted.Worker.Service.{
  Host, Machine, HeartbeatInfo, process_next_job, send_heartbeat,
}
use nimbus_run_a_self_hosted.Worker.Loop as WorkerLoop
use nimbus_run_a_self_hosted.Platform.Postgres.{Postgres}
use nimbus_run_a_self_hosted.Retry.Backoff.{Config}
use nimbus_run_a_self_hosted.Idempotency.{ResultCache}
use nimbus_run_a_self_hosted.Env.{Env, World, Timer}
use nimbus_run_a_self_hosted.Invocation.{Service, InvokeRequest, invoke, process_result, fire}
use nimbus_run_a_self_hosted.Programs.{Site, worker_service, worker_heartbeat}

-- What the programs are built with. The two codecs of heartbeats are of the type that the workers send
-- and of the type that the scheduler reads; `host.jobs` is of the type of jobs that the workers read.
pub record Installation : Type 1 where
  pub float : Float64
  pub host : Host
  pub site : Site
  pub job_queue : RedisStreamQueue
  pub jobs : Codec Job
  pub sent : Codec (HeartbeatInfo float.Float)
  pub heard : Codec (WorkerHeartbeat float.Float)
  pub postgres : Postgres
  pub caches : Codec ResultCache
  pub retry_policy : Config float

-- The scheduler, the machine that the workers run on, with Redis, and what the invocation service has
-- beside Redis: its database, the number of ids it has drawn and its timers.
pub record Cluster (i : Installation) : Type 0 where
  pub scheduler : Scheduler i.float
  pub machine : Machine i.host
  pub db : i.postgres.State
  pub created : ℕ
  pub timers : List Timer

module _ (i : Installation) where
  open i use {float, host, site, job_queue, jobs, sent, heard, postgres, caches, retry_policy}

  abbrev pub with_redis : host.redis.State → Machine host → Machine host
  with_redis t w = record w { redis = t }

  abbrev pub env : Env
  env = record {
    redis = host.redis;
    postgres = postgres;
    float = float;
    uuids = host.uuids;
    jobs = jobs;
    caches = caches;
  }

  -- The invocation service, on the stream that the scheduler reads.
  abbrev pub service : Service env
  service = record { job_queue = job_queue; retry_policy = retry_policy }

  abbrev pub world_of : Cluster i → World env
  world_of c = record { redis = c.machine.redis; db = c.db; drawn = c.created; timers = c.timers }

  -- The cluster after an action of the invocation service.
  abbrev pub with_world : World env → Cluster i → Cluster i
  with_world w c = record {
    scheduler = c.scheduler;
    machine = with_redis w.redis c.machine;
    db = w.db;
    created = w.drawn;
    timers = w.timers;
  }

  -- The scheduler's program, up to the goroutines of `Start`; the first thing that one of them does
  -- is to register its group.
  unfoldable pub launch : Cluster i → Result (Unit {0}) × Cluster i
  launch c =
      let started = start float host.redis (new_scheduler float job_queue) c.machine.redis in
      elim started.0 [
        | err e ↦ (err e, record c { machine = with_redis started.1 c.machine })
        | ok s ↦ (
          ok tt,
          record c {
            scheduler = s;
            machine = with_redis (prepare_heartbeats float host.redis s started.1).1 c.machine;
          },
        )
      ]

  -- One round of `processHeartbeats`.
  unfoldable pub listen : Cluster i → Cluster i
  listen c =
      let done = heartbeat_tick float host.redis heard c.scheduler c.machine.redis in
      record c { scheduler = done.0; machine = with_redis done.1 c.machine }

  -- One round of `dispatchJobs`.
  unfoldable pub dispatch : Round float.Float → Cluster i → Cluster i
  dispatch round c = record c {
    machine =
        with_redis
          (dispatch_one_job float host.redis host.uuids jobs round.visit round.now round.fresh
            c.scheduler c.machine.redis).1
          c.machine;
  }

  -- One round of the loop of the worker with this process id. Its error is logged; after a panic only
  -- a worker that is started again polls.
  unfoldable pub poll : ℕ → WorkerLoop.Round → Cluster i → Cluster i
  poll pid round c = record c {
    machine = (process_next_job host (worker_service site pid) round.elapsed round.now c.machine).1;
  }

  -- One round of the heartbeat goroutine of that worker; an error is dropped.
  unfoldable pub beat : ℕ → Time → Cluster i → Cluster i
  beat pid now c = record c {
    machine = (send_heartbeat host sent (worker_heartbeat site float pid now) c.machine).1;
  }

  -- A call of `Invoke`.
  unfoldable pub request : Time → InvokeRequest → Cluster i → Cluster i
  request now req c = with_world (invoke env service now req (world_of c)).1 c

  -- A call of `ProcessResult`.
  unfoldable pub settle : Time → float.Float → JobResult → Cluster i → Cluster i
  settle now draw result c =
      with_world (process_result env service now draw result (world_of c)).1 c

  -- A pending timer fires, and the others stay.
  unfoldable pub fire_one : Timer → List Timer → Cluster i → Cluster i
  fire_one timer others c =
      with_world (fire env service timer (record (world_of c) { timers = others })).1 c

  -- What can happen next. `launched` is a start or a restart of the scheduler; `elsewhere` is
  -- whatever other clients do to Redis, as long as they create no consumer groups and only add to the
  -- streams that are not named like a key of the idempotency service.
  pub data Step (c : Cluster i) : Cluster i → Type 0 where
    launched : Step c (launch c).1
    listened : Step c (listen c)
    dispatched : (round : Round float.Float) → Step c (dispatch round c)
    polled : (pid : ℕ) (round : WorkerLoop.Round) → Step c (poll pid round c)
    beaten : (pid : ℕ) (now : Time) → Step c (beat pid now c)
    requested : (now : Time) (req : InvokeRequest) → Step c (request now req c)
    resulted :
        (now : Time) (draw : float.Float) (result : JobResult) → Step c (settle now draw result c)
    fired :
        (before after : List Timer) (timer : Timer)
        → c.timers ≡ before ++ timer ∷ after
        → Step c (fire_one timer (before ++ after) c)
    elsewhere :
        (t : host.redis.State)
        → Extends host.redis c.machine.redis t
        → Step c (record c { machine = with_redis t c.machine })

  pub data Reach (c : Cluster i) : Cluster i → Type 0 where
    here : Reach c c
    next : {d e : Cluster i} → Reach c d → Step d e → Reach c e
