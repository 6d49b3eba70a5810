-- ===== src/Scheduler/Loops.antt =====
-- internal/scheduler/scheduler.go: the loops of processHeartbeats and dispatchJobs, and how they end.
use nimbus_run_a_self_hosted.Prelude.{
  ◌≡◌, refl, Bool, true, false, List, [], ◌∷◌, none, some, inl, inr,
}
use nimbus_run_a_self_hosted.Prelude.Exec.{panic_of, Result-cases}
use nimbus_run_a_self_hosted.Prelude.Loops.{Wake, context_done, woken}
use nimbus_run_a_self_hosted.Platform.Data.{Time, Uuid, UuidLib, Codec}
use nimbus_run_a_self_hosted.Platform.Float.{Float64}
use nimbus_run_a_self_hosted.Platform.Redis.{Redis}
use nimbus_run_a_self_hosted.Queue.Types.{Job, WorkerHeartbeat}
use nimbus_run_a_self_hosted.Scheduler.Store.{Order}
use nimbus_run_a_self_hosted.Scheduler.{
  Scheduler, heartbeat_stream, heartbeat_group, prepare_heartbeats, heartbeat_tick, select_worker,
  dispatch_one_job, stop,
}

-- What one round of `dispatchJobs` needs: the order in which the map of workers is visited, the clock
-- and a fresh id.
pub record Round (F : Type 0) : Type 0 where
  pub visit : Order F
  pub now : Time
  pub fresh : Uuid

module _ (f : Float64) (r : Redis) where
  -- The loop of `processHeartbeats`. The first part of the result says whether it has returned.
  unfoldable pub hear :
      Codec (WorkerHeartbeat f.Float)
      → List (Wake (Scheduler f × r.State) (Unit {0}))
      → Scheduler f × r.State
      → Bool × (Scheduler f × r.State)
  hear c [] w = (false, w)
  hear c (context_done cause ∷ rest) w = (true, w)
  hear c (woken meanwhile _ ∷ rest) w =
      hear c rest (heartbeat_tick f r c (meanwhile w).0 (meanwhile w).1)

  unfoldable pub process_heartbeats :
      Codec (WorkerHeartbeat f.Float)
      → List (Wake (Scheduler f × r.State) (Unit {0}))
      → Scheduler f × r.State
      → Bool × (Scheduler f × r.State)
  unfolding hear
  process_heartbeats c events w = hear c events (w.0, (prepare_heartbeats f r w.0 w.1).1)

  -- An error of a dispatch is logged; a panic ends the loop, and the program with it.
  unfoldable pub dispatch_jobs :
      UuidLib
      → Codec Job
      → List (Wake (Scheduler f × r.State) (Round f.Float))
      → Scheduler f × r.State
      → Bool × (Scheduler f × r.State)
  dispatch_jobs u jobs [] w = (false, w)
  dispatch_jobs u jobs (context_done cause ∷ rest) w = (true, w)
  dispatch_jobs u jobs (woken meanwhile round ∷ rest) w =
      let s = (meanwhile w).0 in
      let done = dispatch_one_job f r u jobs round.visit round.now round.fresh s (meanwhile w).1 in
      elim (panic_of done.0) [
        | some e ↦ (true, (s, done.1))
        | none ↦ dispatch_jobs u jobs rest (s, done.1)
      ]

  -- `Stop` only clears a flag that nothing reads: a tick of the heartbeat loop takes in the same
  -- workers and a dispatch does the same after it as before.
  pub stop_ignored :
      (c : Codec (WorkerHeartbeat f.Float)) (u : UuidLib) (jobs : Codec Job) (round : Round f.Float)
      (s : Scheduler f) (t : r.State)
      → (heartbeat_tick f r c (stop f r s) t
          ≡ (stop f r (heartbeat_tick f r c s t).0, (heartbeat_tick f r c s t).1))
        × (dispatch_one_job f r u jobs round.visit round.now round.fresh (stop f r s) t
            ≡ dispatch_one_job f r u jobs round.visit round.now round.fresh s t)
  unfolding stop heartbeat_tick dispatch_one_job select_worker
  stop_ignored c u jobs round s t = (
    elim (Result-cases (r.x_read_group heartbeat_group "scheduler" heartbeat_stream 100 t).0) [
      | inr (cause, e) ↦ rw (e, heartbeat_tick) refl
      | inl (none, e) ↦ rw (e, heartbeat_tick) refl
      | inl (some streams, e) ↦ rw (e, heartbeat_tick) refl
    ],
    refl,
  )
