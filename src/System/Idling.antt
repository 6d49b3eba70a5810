-- ===== src/System/Idling.antt =====
-- cmd/scheduler/main.go and cmd/worker/main.go: what the programs achieve with the consumer groups that
-- they create themselves.
use nimbus_run_a_self_hosted.Prelude.{ℕ, ◌++◌, ◌≡◌, ◌≢◌, refl, ap, ◌∙◌, inl, inr, false, []}
use nimbus_run_a_self_hosted.Queue.Extension.{Extends}
use nimbus_run_a_self_hosted.Env.{IsEnv, World}
use nimbus_run_a_self_hosted.Invocation.Extension.{invoke-Adds, process_result-Adds, fire-Adds}
use nimbus_run_a_self_hosted.Scheduler.{Scheduler, new_scheduler, heartbeat_stream, heartbeat_group}
use nimbus_run_a_self_hosted.Scheduler.Heartbeats.{tick_without_group}
use nimbus_run_a_self_hosted.Scheduler.Extension.{heartbeat_tick-Extends, dispatch_one_job-Extends}
use nimbus_run_a_self_hosted.Worker.Extension.{
  process_next_job-Grows, process_next_job-deaf, send_heartbeat-Grows, send_heartbeat_still,
}
use nimbus_run_a_self_hosted.Programs.{worker_name, worker_service, worker_heartbeat}
use nimbus_run_a_self_hosted.System.{
  Installation, Cluster, env, service, world_of, with_world, launch, listen, dispatch, poll, beat,
  request, settle, fire_one, with_redis, Step, launched, listened, dispatched, polled, beaten,
  requested, resulted, fired, elsewhere, Reach, here, next,
}
use nimbus_run_a_self_hosted.System.Runs.{start_cases, launch_redis}

module _ (i : Installation) where
  open i use {float, host, site, job_queue, jobs, sent, heard}

  -- The heartbeat stream has no group of the scheduler, and the job stream none of a worker.
  pub record IsDeaf (t : host.redis.State) : Type 0 where
    pub unheard : host.redis.has_group t heartbeat_stream heartbeat_group ≡ false
    pub unread : (pid : ℕ) → host.redis.has_group t "nimbusrun:jobs" (worker_name site pid) ≡ false

  -- The scheduler knows of no worker, and the containers are as they were in the first cluster.
  pub record IsIdle (c d : Cluster i) : Type 0 where
    pub unknown : d.scheduler.workers ≡ []
    pub untouched : d.machine.docker ≡ c.machine.docker
    pub undrawn : d.machine.drawn ≡ c.machine.drawn
    pub deaf : IsDeaf d.machine.redis

  Extends-IsDeaf : (s t : host.redis.State) → Extends host.redis s t → IsDeaf s → IsDeaf t
  Extends-IsDeaf s t only_added h = record {
    unheard = only_added.groups heartbeat_stream heartbeat_group h.unheard;
    unread = λ pid. only_added.groups "nimbusrun:jobs" (worker_name site pid) (h.unread pid);
  }

  with_redis-IsIdle :
      (c d : Cluster i) (t : host.redis.State)
      → Extends host.redis d.machine.redis t
      → IsIdle c d
      → IsIdle c (record d { machine = with_redis i t d.machine })
  with_redis-IsIdle c d t only_added h = record {
    unknown = h.unknown;
    untouched = h.untouched;
    undrawn = h.undrawn;
    deaf = Extends-IsDeaf d.machine.redis t only_added h.deaf;
  }

  with_world-IsIdle :
      (c d : Cluster i) (w : World (env i))
      → Extends host.redis d.machine.redis w.redis
      → IsIdle c d
      → IsIdle c (with_world i w d)
  with_world-IsIdle c d w only_added h = record {
    unknown = h.unknown;
    untouched = h.untouched;
    undrawn = h.undrawn;
    deaf = Extends-IsDeaf d.machine.redis w.redis only_added h.deaf;
  }

  launch_still :
      (d : Cluster i)
      → d.scheduler.workers ≡ []
      → ((launch i d).1.scheduler.workers ≡ [])
        × ((launch i d).1.machine.docker ≡ d.machine.docker)
        × ((launch i d).1.machine.drawn ≡ d.machine.drawn)
  unfolding launch new_scheduler
  launch_still d unknown = elim (start_cases i (new_scheduler float job_queue) d.machine.redis) [
    | inr (cause, e) ↦ rw (e, launch) (unknown, refl, refl)
    | inl e ↦ rw (e, launch) (refl, refl, refl)
  ]

  module _ (laws : IsEnv (env i)) where
    module _ (apart : job_queue.job_stream ≢ heartbeat_stream)
        (names : (pid : ℕ)
          → ("scheduler" ≢ worker_name site pid) × (heartbeat_group ≢ worker_name site pid)) where
      scheduler_group-IsDeaf :
          (t : host.redis.State)
          → IsDeaf t
          → IsDeaf (host.redis.x_group_create job_queue.job_stream "scheduler" "0" t).1
      scheduler_group-IsDeaf t h = record {
        unheard =
            laws.redis_laws.x_group_create_other t job_queue.job_stream "scheduler" "0"
              heartbeat_stream heartbeat_group apart
            ∙ h.unheard;
        unread = λ pid.
            laws.redis_laws.x_group_create_name t job_queue.job_stream "scheduler" "0"
              "nimbusrun:jobs" (worker_name site pid) (names pid).0
            ∙ h.unread pid;
      }

      heartbeat_group-IsDeaf :
          (t : host.redis.State)
          → IsDeaf t
          → IsDeaf (host.redis.x_group_create job_queue.job_stream heartbeat_group "0" t).1
      heartbeat_group-IsDeaf t h = record {
        unheard =
            laws.redis_laws.x_group_create_other t job_queue.job_stream heartbeat_group "0"
              heartbeat_stream heartbeat_group apart
            ∙ h.unheard;
        unread = λ pid.
            laws.redis_laws.x_group_create_name t job_queue.job_stream heartbeat_group "0"
              "nimbusrun:jobs" (worker_name site pid) (names pid).1
            ∙ h.unread pid;
      }

      launch-IsIdle : (c d : Cluster i) → IsIdle c d → IsIdle c (launch i d).1
      launch-IsIdle c d h =
          let (unknown, untouched, undrawn) = launch_still d h.unknown in
          record {
            unknown = unknown;
            untouched = untouched ∙ h.untouched;
            undrawn = undrawn ∙ h.undrawn;
            deaf = launch_redis i IsDeaf scheduler_group-IsDeaf heartbeat_group-IsDeaf d h.deaf;
          }

      Step-IsIdle : (c : Cluster i) {d e : Cluster i} → Step i d e → IsIdle c d → IsIdle c e
      unfolding listen dispatch poll beat request settle fire_one worker_service
      Step-IsIdle c {d} launched h = launch-IsIdle c d h
      Step-IsIdle c {d} listened h = record {
        unknown =
            ap (λ (s : Scheduler float). s.workers)
              (tick_without_group float host.redis heard laws.redis_laws d.scheduler d.machine.redis
                h.deaf.unheard)
            ∙ h.unknown;
        untouched = h.untouched;
        undrawn = h.undrawn;
        deaf =
            Extends-IsDeaf d.machine.redis _
              (heartbeat_tick-Extends float host.redis laws.redis_laws heard d.scheduler
                d.machine.redis)
              h.deaf;
      }
      Step-IsIdle c {d} (dispatched round) h =
          with_redis-IsIdle c d _
            (dispatch_one_job-Extends float host.redis laws.redis_laws host.uuids jobs round.visit
              round.now round.fresh d.scheduler d.machine.redis)
            h
      Step-IsIdle c {d} (polled pid round) h =
          let still =
            process_next_job-deaf host laws.redis_laws (worker_service site pid) round.elapsed
              round.now d.machine (h.deaf.unread pid) in
          record {
            unknown = h.unknown;
            untouched = still.0 ∙ h.untouched;
            undrawn = still.1 ∙ h.undrawn;
            deaf =
                Extends-IsDeaf d.machine.redis _
                  (process_next_job-Grows host laws.redis_laws (worker_service site pid)
                    round.elapsed round.now d.machine)
                  h.deaf;
          }
      Step-IsIdle c {d} (beaten pid now) h =
          let info = worker_heartbeat site float pid now in
          let still = send_heartbeat_still host sent info d.machine in
          record {
            unknown = h.unknown;
            untouched = still.0 ∙ h.untouched;
            undrawn = still.1 ∙ h.undrawn;
            deaf =
                Extends-IsDeaf d.machine.redis _
                  (send_heartbeat-Grows host laws.redis_laws sent info d.machine) h.deaf;
          }
      Step-IsIdle c {d} (requested now req) h =
          with_world-IsIdle c d _ (invoke-Adds (env i) laws (service i) now req (world_of i d)) h
      Step-IsIdle c {d} (resulted now draw result) h =
          with_world-IsIdle c d _
            (process_result-Adds (env i) laws (service i) now draw result (world_of i d)) h
      Step-IsIdle c {d} (fired before after timer pending) h =
          with_world-IsIdle c d _
            (fire-Adds (env i) laws (service i) timer
              (record (world_of i d) { timers = before ++ after }))
            h
      Step-IsIdle c {d} (elsewhere t outside) h = with_redis-IsIdle c d t outside h

      -- Suppose that at first the scheduler knows of no worker, the heartbeat stream has no group
      -- `scheduler-heartbeats` and the job stream none of a worker, that the scheduler's queue is not
      -- the heartbeat stream, and that no worker is named like one of the scheduler's groups. Then in
      -- every run, whatever is submitted and settled, in whatever order all take their rounds, and
      -- however often the scheduler starts anew, the scheduler never learns of a worker, the state of
      -- Docker never changes, and those groups stay absent; other clients of Redis are assumed to
      -- create no group.
      pub Reach-IsIdle :
          {c d : Cluster i}
          → Reach i c d
          → c.scheduler.workers ≡ []
          → IsDeaf c.machine.redis
          → IsIdle c d
      Reach-IsIdle here fresh deaf = record {
        unknown = fresh;
        untouched = refl;
        undrawn = refl;
        deaf = deaf;
      }
      Reach-IsIdle {c} (next run last) fresh deaf = Step-IsIdle c last (Reach-IsIdle run fresh deaf)
