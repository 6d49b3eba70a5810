-- ===== src/Worker/Extension.antt =====
-- internal/worker/service.go: the worker's step and its heartbeat only add to Redis.
use nimbus_run_a_self_hosted.Prelude.{
  String, ◌≡◌, refl, false, subst, Option-cases, inl, inr, none, some, List, [], ◌∷◌, lookup,
}
use nimbus_run_a_self_hosted.Prelude.Exec.{Result-cases}
use nimbus_run_a_self_hosted.Prelude.Int.{ℤ}
use nimbus_run_a_self_hosted.Platform.Data.{Time, Codec, text_or_empty}
use nimbus_run_a_self_hosted.Platform.Redis.{IsRedis, Message, StreamReply}
use nimbus_run_a_self_hosted.Queue.Extension.{
  Extends, Extends-refl, Extends-trans, x_add-Extends, x_ack-Extends, x_read_group-Extends,
}
use nimbus_run_a_self_hosted.Worker.Service.{
  Host, Machine, Service, Job, JobResult, HeartbeatInfo, execute_job, published_result,
  publish_result, ack, handle_message, handle_messages, handle_streams, process_next_job,
  send_heartbeat,
}
use nimbus_run_a_self_hosted.Worker.Outcomes.{execute_job_lem}

module _ (h : Host) (laws : IsRedis h.redis) where
  -- From one machine to the other, Redis has only been added to.
  abbrev pub Grows : Machine h → Machine h → Type 0
  Grows w v = Extends h.redis w.redis v.redis

  Grows-trans : (w v u : Machine h) → Grows w v → Grows v u → Grows w u
  Grows-trans w v u first second = Extends-trans h.redis w.redis v.redis u.redis first second

  publish_result-Grows :
      (svc : Service) (now : Time) (job : Job) (result : JobResult) (w : Machine h)
      → Grows w (publish_result h svc now job result w).1
  unfolding publish_result
  publish_result-Grows svc now job result w =
      let values : List (String × String) =
        ("data", text_or_empty (h.published.marshal (published_result h svc now job result)))
        ∷ [] in
      let added = x_add-Extends h.redis laws w.redis "nimbusrun:results" values in
      elim (Result-cases (h.redis.x_add "nimbusrun:results" values w.redis).0) [
        | inl (id, e) ↦ rw (e, publish_result) added
        | inr (cause, e) ↦ rw (e, publish_result) added
      ]

  ack-Grows : (svc : Service) (id : String) (w : Machine h) → Grows w (ack h svc id w).1
  unfolding ack
  ack-Grows svc id w = x_ack-Extends h.redis laws w.redis svc.queue_name svc.worker_id id

  handle_message-Grows :
      (svc : Service) (elapsed : ℤ) (now : Time) (msg : Message) (w : Machine h)
      → Grows w (handle_message h svc elapsed now msg w).1
  unfolding handle_message
  handle_message-Grows svc elapsed now msg w = elim (Option-cases (lookup "data" msg.values)) [
    | inl e ↦ rw (e, handle_message) (Extends-refl h.redis w.redis)
    | inr (text, e) ↦ elim (Result-cases (h.jobs.unmarshal text)) [
      | inr (cause, d) ↦ rw (e, handle_message) (rw (d) (ack-Grows svc msg.id w))
      | inl (job, d) ↦
          let (result, done, same) = execute_job_lem h elapsed job w in
          let run = (execute_job h elapsed job w).1 in
          let told = (publish_result h svc now job result run).1 in
          rw (e, handle_message)
            (rw (d) (
              rw (done) (
                Grows-trans w told (ack h svc msg.id told).1
                  (subst (λ s. Extends h.redis s told.redis) same
                    (publish_result-Grows svc now job result run))
                  (ack-Grows svc msg.id told))))
    ]
  ]

  handle_messages-Grows :
      (svc : Service) (elapsed : ℤ) (now : Time) (msgs : List Message) (w : Machine h)
      → Grows w (handle_messages h svc elapsed now msgs w).1
  unfolding handle_messages
  handle_messages-Grows svc elapsed now [] w = Extends-refl h.redis w.redis
  handle_messages-Grows svc elapsed now (msg ∷ rest) w =
      let first = handle_message-Grows svc elapsed now msg w in
      let after = (handle_message h svc elapsed now msg w).1 in
      elim (Result-cases (handle_message h svc elapsed now msg w).0) [
        | inr (cause, e) ↦ rw (e, handle_messages) first
        | inl (_, e) ↦
            rw (e, handle_messages)
              (Grows-trans w after (handle_messages h svc elapsed now rest after).1 first
                (handle_messages-Grows svc elapsed now rest after))
      ]

  handle_streams-Grows :
      (svc : Service) (elapsed : ℤ) (now : Time) (streams : List StreamReply) (w : Machine h)
      → Grows w (handle_streams h svc elapsed now streams w).1
  unfolding handle_streams
  handle_streams-Grows svc elapsed now [] w = Extends-refl h.redis w.redis
  handle_streams-Grows svc elapsed now (stream ∷ rest) w =
      let first = handle_messages-Grows svc elapsed now stream.messages w in
      let after = (handle_messages h svc elapsed now stream.messages w).1 in
      elim (Result-cases (handle_messages h svc elapsed now stream.messages w).0) [
        | inr (cause, e) ↦ rw (e, handle_streams) first
        | inl (_, e) ↦
            rw (e, handle_streams)
              (Grows-trans w after (handle_streams h svc elapsed now rest after).1 first
                (handle_streams-Grows svc elapsed now rest after))
      ]

  pub process_next_job-Grows :
      (svc : Service) (elapsed : ℤ) (now : Time) (w : Machine h)
      → Grows w (process_next_job h svc elapsed now w).1
  unfolding process_next_job
  process_next_job-Grows svc elapsed now w =
      let reply = h.redis.x_read_group svc.worker_id svc.consumer_name svc.queue_name 1 w.redis in
      let after : Machine h = record w { redis = reply.1 } in
      let read =
        x_read_group-Extends h.redis laws w.redis svc.worker_id svc.consumer_name svc.queue_name
          1 in
      elim (Result-cases reply.0) [
        | inr (cause, e) ↦ rw (e, process_next_job) read
        | inl (none, e) ↦ rw (e, process_next_job) read
        | inl (some streams, e) ↦
            rw (e, process_next_job)
              (Grows-trans w after (handle_streams h svc elapsed now streams after).1 read
                (handle_streams-Grows svc elapsed now streams after))
      ]

  pub send_heartbeat-Grows :
      {F : Type 0} (c : Codec (HeartbeatInfo F)) (info : HeartbeatInfo F) (w : Machine h)
      → Grows w (send_heartbeat h c info w).1
  unfolding send_heartbeat
  send_heartbeat-Grows c info w =
      let values : List (String × String) = ("data", text_or_empty (c.marshal info)) ∷ [] in
      let added = x_add-Extends h.redis laws w.redis "nimbusrun:heartbeats" values in
      elim (Result-cases (h.redis.x_add "nimbusrun:heartbeats" values w.redis).0) [
        | inl (id, e) ↦ rw (e, send_heartbeat) added
        | inr (cause, e) ↦ rw (e, send_heartbeat) added
      ]

  -- Without its consumer group a worker runs nothing: only the read touches Redis.
  pub process_next_job-deaf :
      (svc : Service) (elapsed : ℤ) (now : Time) (w : Machine h)
      → h.redis.has_group w.redis svc.queue_name svc.worker_id ≡ false
      → ((process_next_job h svc elapsed now w).1.docker ≡ w.docker)
        × ((process_next_job h svc elapsed now w).1.drawn ≡ w.drawn)
  unfolding process_next_job
  process_next_job-deaf svc elapsed now w missing =
      elim (Result-cases
        (h.redis.x_read_group svc.worker_id svc.consumer_name svc.queue_name 1 w.redis).0) [
          | inr (cause, e) ↦ rw (e, process_next_job) (refl, refl)
          | inl (reply, e) ↦ absurd (cc (laws.x_read_group_ok w.redis _ _ _ _ reply e))
        ]

module _ (h : Host) where
  -- A heartbeat has nothing to do with the containers.
  pub send_heartbeat_still :
      {F : Type 0} (c : Codec (HeartbeatInfo F)) (info : HeartbeatInfo F) (w : Machine h)
      → ((send_heartbeat h c info w).1.docker ≡ w.docker)
        × ((send_heartbeat h c info w).1.drawn ≡ w.drawn)
  unfolding send_heartbeat
  send_heartbeat_still c info w =
      let values : List (String × String) = ("data", text_or_empty (c.marshal info)) ∷ [] in
      elim (Result-cases (h.redis.x_add "nimbusrun:heartbeats" values w.redis).0) [
        | inl (id, e) ↦ rw (e, send_heartbeat) (refl, refl)
        | inr (cause, e) ↦ rw (e, send_heartbeat) (refl, refl)
      ]
