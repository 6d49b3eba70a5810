-- ===== src/System/Runs.antt =====
-- cmd/scheduler/main.go, cmd/worker/main.go and internal/invocation/service.go: what stays true of Redis
-- and of the scheduler's map of workers, in whatever order all act.
use nimbus_run_a_self_hosted.Prelude.{
  String, ◌≡◌, refl, sym, ap, ◌∙◌, subst, ◌⊎◌, inl, inr, true, List, [], ◌++◌,
}
use mathlib.Core.List.{append-nil, append_assoc}
use nimbus_run_a_self_hosted.Prelude.Exec.{Error, wrapped, ok, err, Result-cases}
use nimbus_run_a_self_hosted.Platform.Redis.{Message}
use nimbus_run_a_self_hosted.Queue.Stream.{register_consumer_group}
use nimbus_run_a_self_hosted.Queue.Extension.{Apart}
use nimbus_run_a_self_hosted.Env.{IsEnv}
use nimbus_run_a_self_hosted.Invocation.Extension.{invoke-Adds, process_result-Adds, fire-Adds}
use nimbus_run_a_self_hosted.Scheduler.{
  Scheduler, new_scheduler, start, prepare_heartbeats, heartbeat_group,
}
use nimbus_run_a_self_hosted.Scheduler.Heartbeats.{register_state}
use nimbus_run_a_self_hosted.Scheduler.Extension.{heartbeat_tick-Extends, dispatch_one_job-Extends}
use nimbus_run_a_self_hosted.Scheduler.Vetting.{IsVetted, heartbeat_tick-IsVetted}
use nimbus_run_a_self_hosted.Worker.Extension.{process_next_job-Grows, send_heartbeat-Grows}
use nimbus_run_a_self_hosted.Programs.{worker_service, worker_heartbeat}
use nimbus_run_a_self_hosted.System.{
  Installation, Cluster, env, service, world_of, launch, listen, dispatch, poll, beat, request,
  settle, fire_one, Step, launched, listened, dispatched, polled, beaten, requested, resulted,
  fired, elsewhere, Reach, here, next,
}

module _ (i : Installation) where
  open i use {float, host, site, job_queue, jobs, sent, heard}

  pub start_cases :
      (s : Scheduler float) (t : host.redis.State)
      → (start float host.redis s t ≡ (
        ok (record s { running = true }),
        (host.redis.x_group_create s.job_queue.job_stream "scheduler" "0" t).1,
      ))
        ⊎ ((e : Error) × (start float host.redis s t
              ≡ (err e, (host.redis.x_group_create s.job_queue.job_stream "scheduler" "0" t).1)))
  unfolding start
  start_cases s t =
      let after = register_state float host.redis heard s.job_queue "scheduler" t in
      elim (Result-cases (register_consumer_group host.redis s.job_queue "scheduler" t).0) [
        | inl (_, e) ↦ inl (rw (e, start) (rw (after) refl))
        | inr (cause, e) ↦
            inr (
              wrapped "registering scheduler consumer group" cause,
              rw (e, start) (rw (after) refl),
            )
      ]

  -- The start of the scheduler does nothing to Redis but to create its two groups.
  pub launch_redis :
      (P : host.redis.State → Type 0)
      → ((t : host.redis.State)
          → P t
          → P (host.redis.x_group_create job_queue.job_stream "scheduler" "0" t).1)
      → ((t : host.redis.State)
          → P t
          → P (host.redis.x_group_create job_queue.job_stream heartbeat_group "0" t).1)
      → (c : Cluster i) → P c.machine.redis
      → P (launch i c).1.machine.redis
  unfolding launch new_scheduler prepare_heartbeats
  launch_redis P first second c h =
      let first_done = first c.machine.redis h in
      let after =
        (host.redis.x_group_create job_queue.job_stream "scheduler" "0" c.machine.redis).1 in
      elim (start_cases (new_scheduler float job_queue) c.machine.redis) [
        | inr (cause, e) ↦ rw (e, launch) (subst P (sym (ap (λ out. out.1) e)) first_done)
        | inl e ↦
            let registered = register_state float host.redis heard job_queue heartbeat_group in
            rw (e, launch)
              (subst (λ t. P (register_consumer_group host.redis job_queue heartbeat_group t).1)
                (sym (ap (λ out. out.1) e))
                (subst P (sym (registered after)) (second after first_done)))
      ]

  -- Between the two clusters, messages have only been added at the ends of the streams, save those
  -- whose names the idempotency service uses.
  abbrev pub Grown : Cluster i → Cluster i → Type 0
  Grown c d =
      (key : String)
      → Apart key
      → (more : List Message) × (host.redis.entries d.machine.redis key
          ≡ host.redis.entries c.machine.redis key ++ more)

  created :
      (laws : IsEnv (env i)) (c : Cluster i) (group : String) (t : host.redis.State)
      → ((key : String)
          → Apart key
          → (more : List Message) × (host.redis.entries t key
              ≡ host.redis.entries c.machine.redis key ++ more))
      → (key : String) → Apart key
      → (more : List Message) × (host.redis.entries
            (host.redis.x_group_create job_queue.job_stream group "0" t).1
            key
          ≡ host.redis.entries c.machine.redis key ++ more)
  created laws c group t h key apart = (
    (h key apart).0,
    laws.redis_laws.x_group_create_entries t job_queue.job_stream group "0" key ∙ (h key apart).1,
  )

  Step-Grown : (laws : IsEnv (env i)) {c d : Cluster i} → Step i c d → Grown c d
  unfolding listen dispatch poll beat request settle fire_one
  Step-Grown laws {c} launched =
      launch_redis
        (λ t.
          (key : String)
          → Apart key
          → (more : List Message) × (host.redis.entries t key
              ≡ host.redis.entries c.machine.redis key ++ more))
        (created laws c "scheduler") (created laws c heartbeat_group) c
        (λ key apart. ([], sym (append-nil (host.redis.entries c.machine.redis key))))
  Step-Grown laws {c} listened =
      (heartbeat_tick-Extends float host.redis laws.redis_laws heard c.scheduler
        c.machine.redis).grown
  Step-Grown laws {c} (dispatched round) =
      (dispatch_one_job-Extends float host.redis laws.redis_laws host.uuids jobs round.visit
        round.now round.fresh c.scheduler c.machine.redis).grown
  Step-Grown laws {c} (polled pid round) =
      (process_next_job-Grows host laws.redis_laws (worker_service site pid) round.elapsed round.now
        c.machine).grown
  Step-Grown laws {c} (beaten pid now) =
      (send_heartbeat-Grows host laws.redis_laws sent (worker_heartbeat site float pid now)
        c.machine).grown
  Step-Grown laws {c} (requested now req) =
      (invoke-Adds (env i) laws (service i) now req (world_of i c)).grown
  Step-Grown laws {c} (resulted now draw result) =
      (process_result-Adds (env i) laws (service i) now draw result (world_of i c)).grown
  Step-Grown laws {c} (fired before after timer pending) =
      (fire-Adds (env i) laws (service i) timer
        (record (world_of i c) { timers = before ++ after })).grown
  Step-Grown laws (elsewhere t outside) = outside.grown

  -- In every run, in whatever order the scheduler, its restarts, the workers and the invocation
  -- service with its timers act, each stream that is not named like a key of the idempotency service
  -- only grows at its end: no message of it is ever removed, moved or changed, where the other clients
  -- of Redis remove none.
  pub Reach-Grown : (laws : IsEnv (env i)) {c d : Cluster i} → Reach i c d → Grown c d
  Reach-Grown laws {c} here =
      λ key apart. ([], sym (append-nil (host.redis.entries c.machine.redis key)))
  Reach-Grown laws {c} {d} (next {e} run last) = λ key apart.
      let before = Reach-Grown laws run key apart in
      let after = Step-Grown laws last key apart in
      (
        before.0 ++ after.0,
        after.1
            ∙ ap (λ old. old ++ after.0) before.1
            ∙ append_assoc (host.redis.entries c.machine.redis key) before.0 after.0,
      )

  launch-IsVetted :
      (c : Cluster i) → IsVetted c.scheduler.workers → IsVetted (launch i c).1.scheduler.workers
  unfolding launch new_scheduler
  launch-IsVetted c h = elim (start_cases (new_scheduler float job_queue) c.machine.redis) [
    | inr (cause, e) ↦ rw (e, launch) h
    | inl e ↦ rw (e, launch) (record { valid = tt; distinct = tt })
  ]

  Step-IsVetted :
      {c d : Cluster i} → Step i c d → IsVetted c.scheduler.workers → IsVetted d.scheduler.workers
  unfolding listen dispatch poll beat request settle fire_one
  Step-IsVetted {c} launched h = launch-IsVetted c h
  Step-IsVetted {c} listened h =
      heartbeat_tick-IsVetted float host.redis heard c.scheduler c.machine.redis h
  Step-IsVetted (dispatched round) h = h
  Step-IsVetted (polled pid round) h = h
  Step-IsVetted (beaten pid now) h = h
  Step-IsVetted (requested now req) h = h
  Step-IsVetted (resulted now draw result) h = h
  Step-IsVetted (fired before after timer pending) h = h
  Step-IsVetted (elsewhere t outside) h = h

  -- In every run that begins with such a map, the scheduler's map of workers holds only heartbeats
  -- that are valid, each under the id of its worker, and never two of one worker.
  pub Reach-IsVetted :
      {c d : Cluster i} → Reach i c d → IsVetted c.scheduler.workers → IsVetted d.scheduler.workers
  Reach-IsVetted here h = h
  Reach-IsVetted (next run last) h = Step-IsVetted last (Reach-IsVetted run h)
