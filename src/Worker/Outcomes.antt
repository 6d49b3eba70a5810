-- ===== src/Worker/Outcomes.antt =====
-- internal/worker/container.go and service.go: how a run ends, and what is published of it.
use nimbus_run_a_self_hosted.Prelude.{
  suc, String, ◌≡◌, refl, ap, ◌⊎◌, inl, inr, none, some, List, [], ◌∷◌, arith, lookup,
}
use nimbus_run_a_self_hosted.Prelude.Exec.{Error, ok, err, Result-cases, wrapped}
use nimbus_run_a_self_hosted.Prelude.Int.{ℤ, pos}
use nimbus_run_a_self_hosted.Platform.Data.{Time, IsCodec, text_or_empty}
use nimbus_run_a_self_hosted.Platform.Docker.{Docker, Waited, cancelled, failed, exited}
use nimbus_run_a_self_hosted.Platform.Redis.{IsRedis, Message}
use nimbus_run_a_self_hosted.Queue.Delivery.{Gains, Gains-keep, x_add-Gains}
use nimbus_run_a_self_hosted.Worker.Runner.{
  RunRequest, ContainerResult, failure, run, wait_for, finish, container_config, host_config,
}
use nimbus_run_a_self_hosted.Worker.Service.{
  Host, Machine, Service, Job, JobResult, Published, execute_job, run_request, published_result,
  publish_result, ack, handle_message,
}

module _ (d : Docker) where
  -- The result of a run is either the exit status that the wait for a container reported, without an
  -- error, or an error with exit code 0 and no output.
  pub data Ending (result : ContainerResult) : Type 0 where
    exit :
        (id : String) (s : d.State)
        → (d.container_wait id s).0 ≡ exited result.exit_code
        → result.error ≡ none
        → Ending result
    failing :
        (cause : Error)
        → result.error ≡ some cause
        → result.exit_code ≡ pos 0
        → result.stdout ≡ ""
        → result.stderr ≡ ""
        → Ending result

  Waited-cases :
      (v : Waited)
      → ((cause : Error) × (v ≡ cancelled cause))
        ⊎ (((cause : Error) × (v ≡ failed cause)) ⊎ ((n : ℤ) × (v ≡ exited n)))
  Waited-cases (cancelled cause) = inl (cause, refl)
  Waited-cases (failed cause) = inr (inl (cause, refl))
  Waited-cases (exited n) = inr (inr (n, refl))

  wait_for_lem :
      (elapsed : ℤ) (id : String) (s : d.State)
      → (result : ContainerResult) × ((wait_for d elapsed id s).0 ≡ ok result) × Ending result
  unfolding wait_for finish
  wait_for_lem elapsed id s = elim (Waited-cases (d.container_wait id s).0) [
    | inl (cause, e) ↦
        (failure elapsed cause, rw (e, wait_for, finish) refl, failing cause refl refl refl refl)
    | inr (inl (cause, e)) ↦
        (failure elapsed cause, rw (e, wait_for, finish) refl, failing cause refl refl refl refl)
    | inr (inr (n, e)) ↦ (
      record { stdout = ""; stderr = ""; exit_code = n; duration = elapsed; error = none },
      rw (e, wait_for, finish) refl,
      exit id s e refl,
    )
  ]

  -- A run always returns a result, and its ending is one of the two: the exit status of a container
  -- that was waited for, or an error.
  pub run-Ending :
      (elapsed : ℤ) (req : RunRequest) (s : d.State)
      → (result : ContainerResult) × ((run d elapsed req s).0 ≡ ok result) × Ending result
  unfolding run
  run-Ending elapsed req s = elim (Result-cases (d.image_pull req.image_uri s).0) [
    | inr (cause, p) ↦ (
      failure (pos 0) (wrapped "pulling image" cause),
      ground (arith, p),
      failing (wrapped "pulling image" cause) refl refl refl refl,
    )
    | inl (_, p) ↦
        let t = (d.image_pull req.image_uri s).1 in
        let made =
          d.container_create (container_config d req) (host_config req) req.container_name t in
        elim (Result-cases made.0) [
          | inr (cause, c) ↦ (
            failure (pos 0) (wrapped "creating container" cause),
            ground (arith, p, c),
            failing (wrapped "creating container" cause) refl refl refl refl,
          )
          | inl (id, c) ↦ elim (Result-cases (d.container_start id made.1).0) [
            | inr (cause, b) ↦ (
              failure (pos 0) (wrapped "starting container" cause),
              ground (arith, p, c, b),
              failing (wrapped "starting container" cause) refl refl refl refl,
            )
            | inl (_, b) ↦
                let (result, ended, how) =
                  wait_for_lem elapsed id (d.container_start id made.1).1 in
                (result, ground (arith, p, c, b, ended), how)
          ]
        ]
  ]

module _ (h : Host) where
  pub execute_job_lem :
      (elapsed : ℤ) (job : Job) (w : Machine h)
      → (result : JobResult) × ((execute_job h elapsed job w).0 ≡ ok result)
        × ((execute_job h elapsed job w).1.redis ≡ w.redis)
  unfolding execute_job
  execute_job_lem elapsed job w =
      let req = run_request h job (h.uuids.created w.drawn) (h.uuids.created (suc w.drawn)) in
      let (result, ended, how) = run-Ending h.docker elapsed req w.docker in
      (
        record {
          exit_code = result.exit_code;
          duration = result.duration;
          stdout = result.stdout;
          stderr = result.stderr;
        },
        ground (arith, ended),
        ground (arith, ended),
      )

  -- A message with data, whether the data decodes to a job or not, is handled without an error, and
  -- the last thing done to Redis is to acknowledge it.
  pub handle_message_acks :
      (svc : Service) (elapsed : ℤ) (now : Time) (msg : Message) (text : String) (w : Machine h)
      → lookup "data" msg.values ≡ some text
      → ((handle_message h svc elapsed now msg w).0 ≡ ok tt)
        × (s : h.redis.State) × ((handle_message h svc elapsed now msg w).1.redis
            ≡ (h.redis.x_ack svc.queue_name svc.worker_id msg.id s).1)
  unfolding handle_message ack
  handle_message_acks svc elapsed now msg text w held =
      elim (Result-cases (h.jobs.unmarshal text)) [
        | inr (cause, d) ↦ (ground (arith, held, d), w.redis, ground (arith, held, d))
        | inl (job, d) ↦
            let (result, done, kept) = execute_job_lem elapsed job w in
            (
              ground (arith, held, d, done),
              (publish_result h svc now job result (execute_job h elapsed job w).1).1.redis,
              ground (arith, held, d, done),
            )
      ]

  -- A message that carries a job is run and its result is published: the stream of results gains one
  -- message, which carries the result, and no other stream changes, if the result can be encoded and
  -- adding it reports no error.
  pub handle_message-Gains :
      (laws : IsRedis h.redis) (codec : IsCodec h.published) (svc : Service) (elapsed : ℤ)
      (now : Time) (msg : Message) (text coded : String) (job : Job) (result : JobResult)
      (w : Machine h)
      → lookup "data" msg.values ≡ some text
      → h.jobs.unmarshal text ≡ ok job
      → (execute_job h elapsed job w).0 ≡ ok result
      → h.published.marshal (published_result h svc now job result) ≡ ok coded
      → (publish_result h svc now job result (execute_job h elapsed job w).1).0 ≡ ok tt
      → Gains h.redis h.published w.redis
          (handle_message h svc elapsed now msg w).1.redis
          "nimbusrun:results"
          (published_result h svc now job result)
  unfolding handle_message ack publish_result lookup
  handle_message-Gains laws codec svc elapsed now msg text coded job result w held decoded done
        encoded sent =
      let (_, _, kept) = execute_job_lem elapsed job w in
      let values : List (String × String) =
        ("data", text_or_empty (h.published.marshal (published_result h svc now job result)))
        ∷ [] in
      let added : (id : String) × ((h.redis.x_add "nimbusrun:results" values w.redis).0 ≡ ok id) =
        elim (Result-cases
          (h.redis.x_add "nimbusrun:results" values (execute_job h elapsed job w).1.redis).0) [
            | inl (id, e) ↦ (id, rw (kept) at e)
            | inr (cause, e) ↦ absurd (ground (arith, e))
          ] in
      let t = (h.redis.x_add "nimbusrun:results" values w.redis).1 in
      Gains-keep h.redis h.published w.redis t _ "nimbusrun:results" _
        (λ key. ground (
          arith,
          held,
          decoded,
          done,
          kept,
          laws.x_ack_entries t svc.queue_name svc.worker_id msg.id key,
        ))
        (x_add-Gains h.redis h.published laws w.redis "nimbusrun:results" values coded added.0 _
          (ap (λ v. some (text_or_empty v)) encoded) (codec.unmarshal-marshal _ coded encoded)
          added.1)

  -- The job result of a run that never started its container.
  abbrev pub blank : JobResult
  blank = record { exit_code = pos 0; duration = pos 0; stdout = ""; stderr = "" }

  execute_job-image_pull :
      (elapsed : ℤ) (job : Job) (w : Machine h) (cause : Error)
      → (h.docker.image_pull job.image_uri w.docker).0 ≡ err cause
      → (execute_job h elapsed job w).0 ≡ ok blank
  unfolding execute_job run run_request
  execute_job-image_pull elapsed job w cause pulled = ground (arith, pulled)

  -- If a message carries a job whose image cannot be pulled, so that nothing is run, then what is
  -- published for the job has status SUCCESS and exit code 0, where it can be encoded and adding it
  -- reports no error.
  pub handle_message_masks :
      (laws : IsRedis h.redis) (codec : IsCodec h.published) (svc : Service) (elapsed : ℤ)
      (now : Time) (msg : Message) (text coded : String) (job : Job) (cause : Error) (w : Machine h)
      → lookup "data" msg.values ≡ some text
      → h.jobs.unmarshal text ≡ ok job
      → (h.docker.image_pull job.image_uri w.docker).0 ≡ err cause
      → h.published.marshal (published_result h svc now job blank) ≡ ok coded
      → (publish_result h svc now job blank (execute_job h elapsed job w).1).0 ≡ ok tt
      → (p : Published) × Gains h.redis h.published w.redis
          (handle_message h svc elapsed now msg w).1.redis
          "nimbusrun:results"
          p
        × (p.status ≡ "SUCCESS")
        × (p.exit_code ≡ pos 0)
  unfolding published_result
  handle_message_masks laws codec svc elapsed now msg text coded job cause w held decoded pulled
        encoded sent =
      (
        published_result h svc now job blank,
        handle_message-Gains laws codec svc elapsed now msg text coded job blank w held decoded
            (execute_job-image_pull elapsed job w cause pulled) encoded sent,
        refl,
        refl,
      )
