-- ===== src/Scheduler/Dispatch.antt =====
-- internal/scheduler/scheduler.go: where a job is after `dispatchOneJob`.
use nimbus_run_a_self_hosted.Prelude.{
  String, ◌≡◌, refl, ◌∙◌, ap, ◌⊎◌, inl, inr, none, some, List, [], ◌∷◌, arith,
}
use nimbus_run_a_self_hosted.Prelude.Exec.{Error, ok, err, Result-cases}
use nimbus_run_a_self_hosted.Platform.Data.{Codec, IsCodec, Uuid, UuidLib}
use nimbus_run_a_self_hosted.Platform.Float.{Float64}
use nimbus_run_a_self_hosted.Platform.Redis.{Redis, IsRedis}
use nimbus_run_a_self_hosted.Queue.Types.{Job, QueuedJob, WorkerHeartbeat}
use nimbus_run_a_self_hosted.Queue.Stream.{
  RedisStreamQueue, enqueue_job, enqueue_job_to_stream, ack_job,
}
use nimbus_run_a_self_hosted.Queue.Delivery.{
  Gains, Gains-keep, enqueue_job-Gains, Gains-keep, enqueue_job_to_stream-Gains,
}
use nimbus_run_a_self_hosted.Scheduler.{Scheduler, worker_stream, assign_job, dispatch_queued}

module _ (f : Float64) (r : Redis) (u : UuidLib) (jobs : Codec Job) (laws : IsRedis r)
    (codec : IsCodec jobs) where
  enqueue_job_acked :
      (q : RedisStreamQueue) (key group id : String) (job : Job) (t : r.State)
      → r.is_acked (enqueue_job r q u jobs job t).1 key group id ≡ r.is_acked t key group id
  unfolding enqueue_job
  enqueue_job_acked q key group id job t = elim (Result-cases (jobs.marshal job)) [
    | inr (cause, m) ↦ ground (arith, m)
    | inl (text, m) ↦
        elim (Result-cases
          (r.x_add q.job_stream (("job_id", u.format job.id) ∷ ("data", text) ∷ []) t).0) [
            | inr (cause, e) ↦ ground (
              arith,
              m,
              e,
              laws.x_add_acked t q.job_stream (("job_id", u.format job.id) ∷ ("data", text) ∷ [])
                  key group id,
            )
            | inl (added, e) ↦ ground (
              arith,
              m,
              e,
              laws.x_add_acked t q.job_stream (("job_id", u.format job.id) ∷ ("data", text) ∷ [])
                  key group id,
            )
          ]
  ]

  -- If a job is dispatched to a worker and the step reports no error, then the worker's stream has
  -- gained exactly one message, which carries the job, and no other stream has changed.
  pub dispatch_queued-Gains :
      (s : Scheduler f) (w : WorkerHeartbeat f.Float) (fresh : Uuid) (queued : QueuedJob)
      (rest : List QueuedJob) (t : r.State)
      → (dispatch_queued f r u jobs s (some w) fresh (queued ∷ rest) t).0 ≡ ok tt
      → Gains r jobs t
          (dispatch_queued f r u jobs s (some w) fresh (queued ∷ rest) t).1
          (worker_stream f r w)
          queued.job
  unfolding dispatch_queued assign_job ack_job
  dispatch_queued-Gains s w fresh queued rest t done =
      elim (Result-cases
        (enqueue_job_to_stream r s.job_queue u jobs fresh (worker_stream f r w) queued.job t).0) [
          | inr (cause, e) ↦ absurd (ground (arith, e))
          | inl (sent, e) ↦
              let after : (dispatch_queued f r u jobs s (some w) fresh (queued ∷ rest) t).1
                  ≡ (ack_job r s.job_queue "scheduler" queued.id
                      (enqueue_job_to_stream r s.job_queue u jobs fresh (worker_stream f r w)
                        queued.job t).1).1 =
                ground (arith, e) in
              Gains-keep r jobs t _ _ (worker_stream f r w) queued.job
                (λ key.
                  ap (λ v. r.entries v key) after
                  ∙ laws.x_ack_entries _ s.job_queue.job_stream "scheduler" queued.id key)
                (enqueue_job_to_stream-Gains r jobs u laws codec s.job_queue fresh
                  (worker_stream f r w) t queued.job e)
        ]

  -- Without a healthy worker the dispatch of a job reports no error. Either the job stream has gained
  -- a copy of the job and no other stream has changed, or the copy failed too; in both cases the
  -- message that the job came from is acknowledged only if it was before, so that the job stays
  -- pending while its copy waits to be read.
  pub dispatch_queued_without_worker :
      (s : Scheduler f) (fresh : Uuid) (queued : QueuedJob) (rest : List QueuedJob) (t : r.State)
      → ((dispatch_queued f r u jobs s none fresh (queued ∷ rest) t).0 ≡ ok tt)
        × (r.is_acked
              (dispatch_queued f r u jobs s none fresh (queued ∷ rest) t).1
              s.job_queue.job_stream
              "scheduler"
              queued.id
            ≡ r.is_acked t s.job_queue.job_stream "scheduler" queued.id)
        × (Gains r jobs t
              (dispatch_queued f r u jobs s none fresh (queued ∷ rest) t).1
              s.job_queue.job_stream
              queued.job
            ⊎ ((cause : Error) × ((enqueue_job r s.job_queue u jobs queued.job t).0 ≡ err cause)))
  unfolding dispatch_queued
  dispatch_queued_without_worker s fresh queued rest t = (
    refl,
    enqueue_job_acked s.job_queue _ "scheduler" queued.id queued.job t,
    elim (Result-cases (enqueue_job r s.job_queue u jobs queued.job t).0) [
      | inr (cause, e) ↦ inr (cause, e)
      | inl (done, e) ↦ inl (enqueue_job-Gains r jobs u laws codec s.job_queue t queued.job e)
    ],
  )
