-- ===== src/Examples/Running.antt =====
-- The properties of the loops and of the scheduler and the workers together, on one installation.
use mathlib.Core.Quot
use nimbus_run_a_self_hosted.Prelude.{ℕ, ◌≡◌, ◌≢◌, refl, ap, List, [], ◌++◌, arith, eq_iff}
use nimbus_run_a_self_hosted.Prelude.Exec.{errorf, ok, err}
use nimbus_run_a_self_hosted.Prelude.Int.{pos}
use nimbus_run_a_self_hosted.Platform.Data.{Codec}
use nimbus_run_a_self_hosted.Platform.Redis.{Message}
use nimbus_run_a_self_hosted.Scheduler.{heartbeat_stream, heartbeat_group, get_worker_stats}
use nimbus_run_a_self_hosted.Scheduler.Store.{list_healthy}
use nimbus_run_a_self_hosted.Queue.Extension.{Apart}
use nimbus_run_a_self_hosted.Idempotency.Keys.{first_code, first_code-idem_key, first_code-lock_key}
use nimbus_run_a_self_hosted.Scheduler.Loops.{Round}
use nimbus_run_a_self_hosted.Scheduler.Vetting.{IsVetted}
use nimbus_run_a_self_hosted.Scheduler.Views.{Stamped, healthy_view, get_worker_stats_view}
use nimbus_run_a_self_hosted.Worker.Service.{HeartbeatInfo}
use nimbus_run_a_self_hosted.Worker.Loop as WorkerLoop
use nimbus_run_a_self_hosted.Programs.{Site, worker_name}
use nimbus_run_a_self_hosted.System.{
  Installation, Cluster, launch, listen, dispatch, poll, beat, request, settle, Reach, here, next,
  launched, listened, dispatched, polled, beaten, requested, resulted,
}
use nimbus_run_a_self_hosted.System.Runs.{Reach-Grown, Reach-IsVetted}
use nimbus_run_a_self_hosted.System.Idling.{IsIdle, Reach-IsIdle}
use nimbus_run_a_self_hosted.Examples.Server.{Server}
use nimbus_run_a_self_hosted.Examples.Tables.{whole, tables}
use nimbus_run_a_self_hosted.Examples.Samples.{jobs, caches, service, shop, env-IsEnv, queue}
use nimbus_run_a_self_hosted.Examples.Samples
use nimbus_run_a_self_hosted.Examples.Invoking.{failed_result}
use nimbus_run_a_self_hosted.Examples.Working.{hello, host, machine}
use nimbus_run_a_self_hosted.Examples.Launching.{recorder}
use nimbus_run_a_self_hosted.Examples.Scheduling.{
  in_order, in_order-IsOrder, scheduler, heartbeats, listening, unread, now,
}

abbrev site : Site
site = record {
  database = recorder;
  ping_redis = λ options s. (ok tt, s);
  new_runner = λ timeout s. (ok tt, s);
  format_pid = λ pid. "7";
}

abbrev infos : Codec (HeartbeatInfo ℕ)
infos = record { marshal = λ info. ok "{}"; unmarshal = λ text. err (errorf "EOF") }

abbrev installation : Installation
installation = record {
  float = whole;
  host = host hello (pos 1);
  site = site;
  job_queue = queue;
  jobs = jobs;
  sent = infos;
  heard = heartbeats;
  postgres = tables;
  caches = caches;
  retry_policy = service.retry_policy;
}

-- A Redis, with a scheduler that knows of no worker.
abbrev cluster : Server → Cluster installation
cluster s = record {
  scheduler = record scheduler { workers = [] };
  machine = record (machine hello (pos 1)) { redis = s };
  db = shop.db;
  created = 0;
  timers = [];
}

abbrev round : Round ℕ
round = record { visit = in_order; now = now; fresh = 5 }

abbrev polling : WorkerLoop.Round
polling = record { elapsed = pos 7; now = now }

-- The scheduler starts, a worker is heard, an invocation is requested, resulted, every loop takes a round, and
-- the failure of a job is settled.
abbrev ended : Server → Cluster installation
ended s = settle installation now 0 failed_result (
    poll installation 7 polling (
      dispatch installation round (
        request installation now Samples.request
          (listen installation (beat installation 7 now (launch installation (cluster s)).1)))))

run : (s : Server) → Reach installation (cluster s) (ended s)
run s =
    let heard = next (next (next here launched) (beaten 7 now)) listened in
    next
      (next (next (next heard (requested now Samples.request)) (dispatched round))
        (polled 7 polling))
      (resulted now 0 failed_result)

queue_apart : queue.job_stream ≢ heartbeat_stream
queue_apart e = ground (arith, (eq_iff queue.job_stream heartbeat_stream).1 e)

names_apart :
    (pid : ℕ) → ("scheduler" ≢ worker_name site pid) × (heartbeat_group ≢ worker_name site pid)
unfolding worker_name
names_apart pid = (
  λ e. ground (arith, (eq_iff "scheduler" "worker-7").1 e),
  λ e. ground (arith, (eq_iff heartbeat_group "worker-7").1 e),
)

Reach-IsIdle_example : IsIdle installation (cluster unread) (ended unread)
Reach-IsIdle_example =
    Reach-IsIdle installation env-IsEnv queue_apart names_apart (run unread) refl
      (record { unheard = refl; unread = λ pid. refl })

heartbeats-Apart : Apart "nimbusrun:heartbeats"
heartbeats-Apart k = (
  λ e. absurd (omega (arith, ap first_code e, first_code-idem_key k)),
  λ e. absurd (omega (arith, ap first_code e, first_code-lock_key k)),
)

Reach-Grown_example :
    (more : List Message) × ((ended unread).machine.redis.streams "nimbusrun:heartbeats"
      ≡ unread.streams "nimbusrun:heartbeats" ++ more)
Reach-Grown_example =
    Reach-Grown installation env-IsEnv (run unread) "nimbusrun:heartbeats" heartbeats-Apart

Reach-IsVetted_example : IsVetted (ended listening).scheduler.workers
Reach-IsVetted_example =
    Reach-IsVetted installation (run listening) (record { valid = tt; distinct = tt })

stamped : Stamped scheduler.workers
stamped =
    ((omega arith, omega arith), ((omega arith, omega arith), ((omega arith, omega arith), tt)))

get_worker_stats_view_example :
    (Quot.mk (get_worker_stats whole in_order now scheduler) ≡ healthy_view now scheduler.workers)
    × (Quot.mk (list_healthy in_order now scheduler.worker_store)
        ≡ healthy_view now scheduler.worker_store.workers)
get_worker_stats_view_example =
    get_worker_stats_view whole in_order in_order-IsOrder now scheduler scheduler.worker_store
      (omega arith) stamped stamped
