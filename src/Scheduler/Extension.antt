-- ===== src/Scheduler/Extension.antt =====
-- internal/scheduler/scheduler.go: a tick of the heartbeat loop and the dispatch of a job only add to
-- Redis.
use nimbus_run_a_self_hosted.Prelude.{
  Option-cases, Bool-cases, inl, inr, Option, none, some, List, [], ◌∷◌, lookup,
}
use nimbus_run_a_self_hosted.Prelude.Exec.{Result-cases}
use nimbus_run_a_self_hosted.Platform.Data.{Time, Uuid, UuidLib, Codec}
use nimbus_run_a_self_hosted.Platform.Float.{Float64}
use nimbus_run_a_self_hosted.Platform.Redis.{Redis, IsRedis, Message, StreamReply}
use nimbus_run_a_self_hosted.Queue.Types.{Job, QueuedJob, WorkerHeartbeat}
use nimbus_run_a_self_hosted.Queue.Heartbeat.{validate}
use nimbus_run_a_self_hosted.Queue.Stream.{
  enqueue_job, enqueue_job_to_stream, ack_job, dequeue_jobs,
}
use nimbus_run_a_self_hosted.Queue.Extension.{
  Extends, Extends-refl, Extends-trans, x_ack-Extends, x_read_group-Extends, enqueue_job-Extends,
  enqueue_job_to_stream-Extends, dequeue_jobs-Extends,
}
use nimbus_run_a_self_hosted.Scheduler.Store.{Workers, Order}
use nimbus_run_a_self_hosted.Scheduler.{
  Scheduler, heartbeat_stream, heartbeat_group, take_heartbeat, take_messages, take_streams,
  heartbeat_tick, select_worker, worker_stream, assign_job, dispatch_queued, dispatch_one_job,
  is_no_jobs,
}

module _ (f : Float64) (r : Redis) (laws : IsRedis r) where
  module _ (c : Codec (WorkerHeartbeat f.Float)) where
    take_heartbeat-Extends :
        (msg : Message) (m : Workers f.Float) (s : r.State)
        → Extends r s (take_heartbeat f r c msg (m, s)).1
    unfolding take_heartbeat
    take_heartbeat-Extends msg m s = elim (Option-cases (lookup "data" msg.values)) [
      | inl e ↦ rw (e, take_heartbeat) (Extends-refl r s)
      | inr (text, e) ↦ elim (Result-cases (c.unmarshal text)) [
        | inr (cause, d) ↦ rw (e, take_heartbeat) (rw (d) (Extends-refl r s))
        | inl (hb, d) ↦ elim (Result-cases (validate hb)) [
          | inr (cause, v) ↦ rw (e, take_heartbeat) (rw (d) (rw (v) (Extends-refl r s)))
          | inl (_, v) ↦
              rw (e, take_heartbeat)
                (rw (d) (rw (v) (x_ack-Extends r laws s heartbeat_stream heartbeat_group msg.id)))
        ]
      ]
    ]

    take_messages-Extends :
        (msgs : List Message) (m : Workers f.Float) (s : r.State)
        → Extends r s (take_messages f r c msgs (m, s)).1
    unfolding take_messages
    take_messages-Extends [] m s = Extends-refl r s
    take_messages-Extends (msg ∷ rest) m s =
        let w = take_heartbeat f r c msg (m, s) in
        Extends-trans r s w.1 (take_messages f r c rest w).1 (take_heartbeat-Extends msg m s)
          (take_messages-Extends rest w.0 w.1)

    take_streams-Extends :
        (streams : List StreamReply) (m : Workers f.Float) (s : r.State)
        → Extends r s (take_streams f r c streams (m, s)).1
    unfolding take_streams
    take_streams-Extends [] m s = Extends-refl r s
    take_streams-Extends (stream ∷ rest) m s =
        let w = take_messages f r c stream.messages (m, s) in
        Extends-trans r s w.1 (take_streams f r c rest w).1
          (take_messages-Extends stream.messages m s) (take_streams-Extends rest w.0 w.1)

    pub heartbeat_tick-Extends :
        (s : Scheduler f) (t : r.State) → Extends r t (heartbeat_tick f r c s t).1
    unfolding heartbeat_tick
    heartbeat_tick-Extends s t =
        let read = x_read_group-Extends r laws t heartbeat_group "scheduler" heartbeat_stream 100 in
        let after = (r.x_read_group heartbeat_group "scheduler" heartbeat_stream 100 t).1 in
        elim (Result-cases (r.x_read_group heartbeat_group "scheduler" heartbeat_stream 100 t).0) [
          | inr (cause, e) ↦ rw (e, heartbeat_tick) read
          | inl (none, e) ↦ rw (e, heartbeat_tick) read
          | inl (some streams, e) ↦
              rw (e, heartbeat_tick)
                (Extends-trans r t after (take_streams f r c streams (s.workers, after)).1 read
                  (take_streams-Extends streams s.workers after))
        ]

  module _ (u : UuidLib) (jobs : Codec Job) where
    assign_job-Extends :
        (s : Scheduler f) (fresh : Uuid) (queued : QueuedJob) (w : WorkerHeartbeat f.Float)
        (t : r.State)
        → Extends r t (assign_job f r u jobs s fresh queued w t).1
    unfolding assign_job ack_job
    assign_job-Extends s fresh queued w t =
        let to = worker_stream f r w in
        let sent = enqueue_job_to_stream-Extends r laws s.job_queue jobs u fresh to queued.job t in
        let after = (enqueue_job_to_stream r s.job_queue u jobs fresh to queued.job t).1 in
        elim (Result-cases (enqueue_job_to_stream r s.job_queue u jobs fresh to queued.job t).0) [
          | inr (cause, e) ↦
              rw (e, assign_job)
                (Extends-trans r t after (enqueue_job r s.job_queue u jobs queued.job after).1 sent
                  (enqueue_job-Extends r laws s.job_queue jobs u queued.job after))
          | inl (_, e) ↦
              rw (e, assign_job)
                (Extends-trans r t after
                  (r.x_ack s.job_queue.job_stream "scheduler" queued.id after).1 sent
                  (x_ack-Extends r laws after s.job_queue.job_stream "scheduler" queued.id))
        ]

    dispatch_queued-Extends :
        (s : Scheduler f) (choice : Option (WorkerHeartbeat f.Float)) (fresh : Uuid)
        (queue : List QueuedJob) (t : r.State)
        → Extends r t (dispatch_queued f r u jobs s choice fresh queue t).1
    unfolding dispatch_queued
    dispatch_queued-Extends s choice fresh [] t = Extends-refl r t
    dispatch_queued-Extends s none fresh (queued ∷ rest) t =
        enqueue_job-Extends r laws s.job_queue jobs u queued.job t
    dispatch_queued-Extends s (some w) fresh (queued ∷ rest) t =
        assign_job-Extends s fresh queued w t

    pub dispatch_one_job-Extends :
        (visit : Order f.Float) (now : Time) (fresh : Uuid) (s : Scheduler f) (t : r.State)
        → Extends r t (dispatch_one_job f r u jobs visit now fresh s t).1
    unfolding dispatch_one_job
    dispatch_one_job-Extends visit now fresh s t =
        let read = dequeue_jobs-Extends r laws s.job_queue jobs "scheduler" "dispatcher-1" 1 t in
        let after = (dequeue_jobs r s.job_queue jobs "scheduler" "dispatcher-1" 1 t).1 in
        let choice = select_worker f visit now s in
        elim (Result-cases (dequeue_jobs r s.job_queue jobs "scheduler" "dispatcher-1" 1 t).0) [
          | inr (cause, e) ↦ elim (Bool-cases (is_no_jobs cause)) [
            | inl q ↦ rw (e, dispatch_one_job) (rw (q) read)
            | inr q ↦ rw (e, dispatch_one_job) (rw (q) read)
          ]
          | inl (queue, e) ↦
              rw (e, dispatch_one_job)
                (Extends-trans r t after (dispatch_queued f r u jobs s choice fresh queue after).1
                  read (dispatch_queued-Extends s choice fresh queue after))
        ]
