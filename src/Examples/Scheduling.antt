-- ===== src/Examples/Scheduling.antt =====
-- The properties of the queue and the scheduler with three workers.
use mathlib.Core.List.Permᴰ
use mathlib.Core.List.{filter_map}
use nimbus_run_a_self_hosted.Prelude.{
  ℕ, ◌*◌, String, ◌≡◌, ◌↔◌, ◌⊎◌, refl, true, false, none, some, [], ◌∷◌, lookup, All, arith,
}
use nimbus_run_a_self_hosted.Prelude.Exec.{Error, ok, err}
use nimbus_run_a_self_hosted.Prelude.Int.{ℤ, pos, ◌≤ℤ◌, ◌*ℤ◌, ◌+ℤ◌, ◌-ℤ◌, int64}
use nimbus_run_a_self_hosted.Prelude.Members.{In, Distinct, count_if}
use nimbus_run_a_self_hosted.Platform.Data.{Time, second, Codec}
use nimbus_run_a_self_hosted.Platform.Redis.{Message}
use nimbus_run_a_self_hosted.Queue.Types.{QueuedJob, WorkerHeartbeat}
use nimbus_run_a_self_hosted.Queue.Heartbeat.{
  calculate_load, is_healthy, sub_time, time_unix, validate,
}
use nimbus_run_a_self_hosted.Queue.Freshness.{last_second, is_healthy_iff}
use nimbus_run_a_self_hosted.Queue.Stream.{
  decode, dequeue_jobs, enqueue_job, enqueue_job_to_stream, ack_job,
}
use nimbus_run_a_self_hosted.Queue.Delivery.{Gains, dequeue_jobs_lem}
use nimbus_run_a_self_hosted.Scheduler.Store.{Workers, Order, get, healthy_beats, clean_stale}
use nimbus_run_a_self_hosted.Scheduler.{
  Scheduler, lowest, select_lowest_load_worker, select_worker, heartbeat_tick, dispatch_queued,
  assign_job, worker_stream,
}
use nimbus_run_a_self_hosted.Scheduler.Choice.{IsOrder, select_worker_least}
use nimbus_run_a_self_hosted.Scheduler.Cleaning.{stale, if_fresh, clean_stale_lem}
use nimbus_run_a_self_hosted.Scheduler.Heartbeats.{heartbeat_tick-latest}
use nimbus_run_a_self_hosted.Scheduler.Dispatch.{
  dispatch_queued-Gains, dispatch_queued_without_worker,
}
use nimbus_run_a_self_hosted.Examples.Server.{
  Server, memory, memory-IsRedis, blank_server, append, add_group,
}
use nimbus_run_a_self_hosted.Examples.Tables.{whole, whole-IsFloat64, stroke_ids, codec_of}
use nimbus_run_a_self_hosted.Examples.Samples.{jobs, jobs-IsCodec, hello_job, queue}

abbrev pub beat : String → ℕ → ℤ → WorkerHeartbeat ℕ
beat id usage at = record {
  worker_id = id;
  hostname = "host";
  cpu_usage = usage;
  memory_usage = 0;
  running_tasks = pos 0;
  available_slots = pos 1;
  total_slots = pos 1;
  timestamp = at;
}

abbrev pub three_workers : Workers ℕ
three_workers =
    ("w1", beat "w1" 9 (pos 100))
    ∷ ("w2", beat "w2" 1 (pos 70))
    ∷ ("w3", beat "w3" 2 (pos 108))
    ∷ []

abbrev pub now : Time
now = pos (110 * second)

abbrev pub in_order : Order ℕ
in_order m = m

pub in_order-IsOrder : IsOrder in_order
in_order-IsOrder = record { rearranges = λ m. Permᴰ.refl m }

abbrev pub scheduler : Scheduler whole
scheduler = record {
  job_queue = queue;
  worker_store = record { workers = three_workers; ttl = 30 };
  select_func = select_lowest_load_worker whole;
  running = true;
  workers = three_workers;
}

is_healthy_iff_example :
    (is_healthy now (beat "w1" 9 (pos 100)) ≡ true)
    ↔ ((pos 100 ≤ℤ last_second) × (now ≤ℤ pos 100 *ℤ pos second +ℤ pos (15 * second)))
is_healthy_iff_example =
    is_healthy_iff now (beat "w1" 9 (pos 100)) (omega arith) (omega arith, omega arith)

select_worker_least_example :
    In (beat "w3" 2 (pos 108)) (healthy_beats now three_workers)
    × All
        (λ x.
          whole.lt (calculate_load whole x) (calculate_load whole (beat "w3" 2 (pos 108))) ≡ false)
        (healthy_beats now three_workers)
unfolding select_worker select_lowest_load_worker lowest healthy_beats is_healthy sub_time time_unix
    ◌-ℤ◌ ◌*ℤ◌ ◌+ℤ◌ int64 calculate_load
select_worker_least_example =
    select_worker_least whole whole-IsFloat64 in_order in_order-IsOrder now scheduler
      (beat "w3" 2 (pos 108)) refl refl

abbrev pub heartbeats : Codec (WorkerHeartbeat ℕ)
heartbeats = codec_of (λ h. false) (beat "w9" 5 (pos 105))

abbrev pub heartbeat_message : Message
heartbeat_message = record { id = "1-0"; values = ("data", "{}") ∷ [] }

abbrev pub listening : Server
listening =
    add_group "nimbusrun:heartbeats" "scheduler-heartbeats"
      (append "nimbusrun:heartbeats" heartbeat_message blank_server)

heartbeat_tick-latest_example :
    lookup "w9" (heartbeat_tick whole memory heartbeats scheduler listening).0.workers
    ≡ some (beat "w9" 5 (pos 105))
unfolding decode validate lookup
heartbeat_tick-latest_example =
    heartbeat_tick-latest whole memory heartbeats scheduler listening "w9"

abbrev pub unread : Server
unread = append "nimbusrun:heartbeats" heartbeat_message blank_server

clean_stale_lem_example :
    ((k : String)
      → get k (clean_stale in_order now scheduler.worker_store).0
        ≡ if_fresh now (get k scheduler.worker_store))
    × ((clean_stale in_order now scheduler.worker_store).1
        ≡ count_if (stale now) scheduler.worker_store.workers)
    × Distinct (clean_stale in_order now scheduler.worker_store).0.workers
unfolding lookup
clean_stale_lem_example =
    clean_stale_lem now in_order in_order-IsOrder scheduler.worker_store (refl, (refl, (refl, tt)))

abbrev job_message : Message
job_message = record { id = "1-0"; values = ("job_id", "ii") ∷ ("data", "{}") ∷ [] }

abbrev noise : Message
noise = record { id = "2-0"; values = ("job_id", "ii") ∷ ("data", "[") ∷ [] }

abbrev waiting : Server
waiting =
    add_group "nimbusrun:jobs" "scheduler"
      (append "nimbusrun:jobs" noise (append "nimbusrun:jobs" job_message blank_server))

dequeue_jobs_lem_example :
    (dequeue_jobs memory queue jobs "scheduler" "dispatcher-1" 1 waiting).0
    ≡ ok (record { id = "1-0"; job = hello_job; claim = "dispatcher-1" } ∷ [])
unfolding decode lookup filter_map
dequeue_jobs_lem_example = dequeue_jobs_lem memory jobs queue "scheduler" "dispatcher-1" 1 waiting

abbrev queued_job : QueuedJob
queued_job = record { id = "1-0"; job = hello_job; claim = "dispatcher-1" }

dispatch_queued-Gains_example :
    Gains memory jobs waiting
      (dispatch_queued whole memory stroke_ids jobs scheduler
        (some (beat "w3" 2 (pos 108)))
        5
        (queued_job ∷ [])
        waiting).1
      (worker_stream whole memory (beat "w3" 2 (pos 108)))
      hello_job
unfolding dispatch_queued assign_job enqueue_job_to_stream ack_job
dispatch_queued-Gains_example =
    dispatch_queued-Gains whole memory stroke_ids jobs memory-IsRedis jobs-IsCodec scheduler
      (beat "w3" 2 (pos 108)) 5 queued_job [] waiting refl

dispatch_queued_without_worker_example :
    ((dispatch_queued whole memory stroke_ids jobs scheduler none 5 (queued_job ∷ []) waiting).0
      ≡ ok tt)
    × ((dispatch_queued whole memory stroke_ids jobs scheduler none 5
            (queued_job ∷ [])
            waiting).1.acked
          "nimbusrun:jobs" "scheduler" "1-0"
        ≡ false)
    × (Gains memory jobs waiting
          (dispatch_queued whole memory stroke_ids jobs scheduler none 5
            (queued_job ∷ [])
            waiting).1
          "nimbusrun:jobs"
          hello_job
        ⊎ ((cause : Error) × ((enqueue_job memory queue stroke_ids jobs hello_job waiting).0
              ≡ err cause)))
dispatch_queued_without_worker_example =
    dispatch_queued_without_worker whole memory stroke_ids jobs memory-IsRedis jobs-IsCodec
      scheduler 5 queued_job [] waiting
