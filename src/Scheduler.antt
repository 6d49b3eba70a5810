-- ===== src/Scheduler.antt =====
-- internal/scheduler/scheduler.go: choosing a worker, taking in heartbeats, dispatching jobs.
-- The mutex orders the calls, and each call is one step here. Sleeping and logging are left out.
pub mod Store
pub mod Choice
pub mod Dispatch
pub mod Heartbeats
pub mod Extension
pub mod Loops
pub mod Vetting
pub mod Views
pub mod Cleaning
use Prim.Native.String.{◌++◌ as str_append}
use nimbus_run_a_self_hosted.Prelude.{
  ℕ, String, Bool, true, false, Option, none, some, List, [], ◌∷◌, if◌then◌else◌, assign, lookup,
  str_eq,
}
use nimbus_run_a_self_hosted.Prelude.Exec.{
  Error, errorf, Result, ok, err, Exec, pure, raise, attempt, ignore, ◌>>=◌, ◌>>◌, wrapped,
}
use nimbus_run_a_self_hosted.Platform.Data.{Time, Uuid, UuidLib, Codec}
use nimbus_run_a_self_hosted.Platform.Float.{Float64}
use nimbus_run_a_self_hosted.Platform.Redis.{Redis, Message, StreamReply}
use nimbus_run_a_self_hosted.Queue.Types.{Job, QueuedJob, WorkerHeartbeat}
use nimbus_run_a_self_hosted.Queue.Heartbeat.{calculate_load, validate, is_healthy}
use nimbus_run_a_self_hosted.Queue.Stream.{
  RedisStreamQueue, register_consumer_group, enqueue_job, enqueue_job_to_stream, dequeue_jobs,
  ack_job,
}
use Store.{Workers, Order, healthy_beats, WorkerHeartbeatStore, new_worker_heartbeat_store}

-- `err == queue.ErrNoJobs`; a wrapped error is another value.
abbrev pub is_no_jobs : Error → Bool
is_no_jobs (errorf m) = str_eq m "no jobs available"
is_no_jobs _ = false

abbrev pub heartbeat_stream : String
heartbeat_stream = "nimbusrun:heartbeats"

abbrev pub heartbeat_group : String
heartbeat_group = "scheduler-heartbeats"

module _ (f : Float64) where
  open f use {Float, lt}

  -- The loop of `selectLowestLoadWorker`.
  unfoldable pub lowest :
      WorkerHeartbeat Float → Float → List (WorkerHeartbeat Float) → WorkerHeartbeat Float
  lowest best best_load [] = best
  lowest best best_load (w ∷ rest) =
      let load = calculate_load f w in
      lowest (if lt load best_load then w else best) (if lt load best_load then load else best_load)
        rest

  unfoldable pub select_lowest_load_worker :
      List (WorkerHeartbeat Float) → Option (WorkerHeartbeat Float)
  unfolding lowest
  select_lowest_load_worker [] = none
  select_lowest_load_worker (w ∷ rest) = some (lowest w (calculate_load f w) rest)

  pub record Scheduler : Type 0 where
    pub job_queue : RedisStreamQueue
    pub worker_store : WorkerHeartbeatStore Float
    pub select_func : List (WorkerHeartbeat Float) → Option (WorkerHeartbeat Float)
    pub running : Bool
    pub workers : Workers Float

  unfoldable pub new_scheduler : RedisStreamQueue → Scheduler
  new_scheduler q = record {
    job_queue = q;
    worker_store = new_worker_heartbeat_store;
    select_func = select_lowest_load_worker;
    running = false;
    workers = [];
  }

  unfoldable pub select_worker : Order Float → Time → Scheduler → Option (WorkerHeartbeat Float)
  select_worker visit now s = elim (healthy_beats now (visit s.workers)) [
    | [] ↦ none
    | w ∷ rest ↦ s.select_func (w ∷ rest)
  ]

  unfoldable pub get_worker_stats : Order Float → Time → Scheduler → List (WorkerHeartbeat Float)
  get_worker_stats visit now s = healthy_beats now (visit s.workers)

  -- The invocation is not looked at.
  unfoldable pub select_by_invocation :
      Order Float → Time → Scheduler → Uuid → Result (Option (WorkerHeartbeat Float))
  unfolding select_worker
  select_by_invocation visit now s inv_id = ok (select_worker visit now s)

  module _ (r : Redis) where
    -- One message of the heartbeat stream: what decodes and is valid is recorded and acknowledged.
    unfoldable pub take_heartbeat :
        Codec (WorkerHeartbeat Float) → Message → Workers Float × r.State → Workers Float × r.State
    take_heartbeat c msg (m, s) = elim (lookup "data" msg.values) [
      | none ↦ (m, s)
      | some text ↦ elim (c.unmarshal text) [
        | err e ↦ (m, s)
        | ok hb ↦ elim (validate hb) [
          | err e ↦ (m, s)
          | ok _ ↦ (assign hb.worker_id hb m, (r.x_ack heartbeat_stream heartbeat_group msg.id s).1)
        ]
      ]
    ]

    unfoldable pub take_messages :
        Codec (WorkerHeartbeat Float)
        → List Message
        → Workers Float × r.State
        → Workers Float × r.State
    take_messages c [] w = w
    take_messages c (msg ∷ rest) w = take_messages c rest (take_heartbeat c msg w)

    unfoldable pub take_streams :
        Codec (WorkerHeartbeat Float)
        → List StreamReply
        → Workers Float × r.State
        → Workers Float × r.State
    take_streams c [] w = w
    take_streams c (stream ∷ rest) w = take_streams c rest (take_messages c stream.messages w)

    -- One tick of the loop of `processHeartbeats`; an error is logged and the loop goes on.
    unfoldable pub heartbeat_tick :
        Codec (WorkerHeartbeat Float) → Scheduler → r.State → Scheduler × r.State
    heartbeat_tick c s t =
        let read = r.x_read_group heartbeat_group "scheduler" heartbeat_stream 100 t in
        elim read.0 [
          | err e ↦ (s, read.1)
          | ok reply ↦ elim reply [
            | none ↦ (s, read.1)
            | some streams ↦
                let (m, t') = take_streams c streams (s.workers, read.1) in
                (record s { workers = m }, t')
          ]
        ]

    -- What `processHeartbeats` does before its loop; the error is logged.
    unfoldable pub prepare_heartbeats : Scheduler → Exec r.State (Unit {0})
    prepare_heartbeats s = ignore (register_consumer_group r s.job_queue heartbeat_group)

    -- `Start`, up to the two goroutines that it leaves running. Where it fails, the scheduler, which is
    -- already marked as running then, is not returned: the program ends without it.
    unfoldable pub start : Scheduler → r.State → Result Scheduler × r.State
    start s = do
      done ← attempt (register_consumer_group r s.job_queue "scheduler")
      elim done [
        | err e ↦ raise (wrapped "registering scheduler consumer group" e)
        | ok _ ↦ pure (record s { running = true })
      ]

    unfoldable pub stop : Scheduler → Scheduler
    stop s = record s { running = false }

    unfoldable pub worker_stream : WorkerHeartbeat Float → String
    worker_stream w = str_append "nimbusrun:worker:" w.worker_id

    module _ (u : UuidLib) (jobs : Codec Job) where
      -- The rest of `dispatchOneJob`, once a job and a worker are chosen.
      unfoldable pub assign_job :
          Scheduler → Uuid → QueuedJob → WorkerHeartbeat Float → Exec r.State (Unit {0})
      unfolding worker_stream
      assign_job s fresh queued w = do
        sent ←
            attempt (enqueue_job_to_stream r s.job_queue u jobs fresh (worker_stream w) queued.job)
        elim sent [
          | err e ↦ do ignore (enqueue_job r s.job_queue u jobs queued.job); raise e
          | ok _ ↦ ignore (ack_job r s.job_queue "scheduler" queued.id)
        ]

      unfoldable pub dispatch_queued :
          Scheduler
          → Option (WorkerHeartbeat Float)
          → Uuid
          → List QueuedJob
          → Exec r.State (Unit {0})
      unfolding assign_job
      dispatch_queued s choice fresh [] = pure tt
      dispatch_queued s choice fresh (queued ∷ _) = elim choice [
        | none ↦ ignore (enqueue_job r s.job_queue u jobs queued.job)
        | some w ↦ assign_job s fresh queued w
      ]

      unfoldable pub dispatch_one_job :
          Order Float → Time → Uuid → Scheduler → Exec r.State (Unit {0})
      unfolding dispatch_queued
      dispatch_one_job visit now fresh s = do
        dequeued ← attempt (dequeue_jobs r s.job_queue jobs "scheduler" "dispatcher-1" 1)
        elim dequeued [
          | err e ↦ if is_no_jobs e then pure tt else raise (wrapped "dequeuing job" e)
          | ok queue ↦ dispatch_queued s (select_worker visit now s) fresh queue
        ]
