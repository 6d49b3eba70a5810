-- ===== src/Scheduler/Heartbeats.antt =====
-- internal/scheduler/scheduler.go: what a batch of heartbeats leaves in the map of workers.
use nimbus_run_a_self_hosted.Prelude.{
  String, ◌≡◌, ◌≢◌, refl, ◌∙◌, inl, inr, Option-cases, ap, sym, false, Option, none, some, List, [],
  ◌∷◌, ◌++◌, arith, lookup, lookup-assign, str_eq, if◌then◌else◌,
}
use nimbus_run_a_self_hosted.Prelude.Exec.{Result, ok, err, Result-cases}
use nimbus_run_a_self_hosted.Platform.Data.{Codec}
use nimbus_run_a_self_hosted.Platform.Float.{Float64}
use nimbus_run_a_self_hosted.Platform.Redis.{Redis, IsRedis, Message, StreamReply}
use nimbus_run_a_self_hosted.Queue.Types.{WorkerHeartbeat}
use nimbus_run_a_self_hosted.Queue.Heartbeat.{validate}
use nimbus_run_a_self_hosted.Queue.Stream.{RedisStreamQueue, register_consumer_group, decode}
use nimbus_run_a_self_hosted.Queue.Delivery.{messages_of}
use nimbus_run_a_self_hosted.Scheduler.Store.{Workers}
use nimbus_run_a_self_hosted.Scheduler.{
  Scheduler, heartbeat_stream, heartbeat_group, take_heartbeat, take_messages, take_streams,
  heartbeat_tick, prepare_heartbeats,
}

module _ (f : Float64) (r : Redis) (c : Codec (WorkerHeartbeat f.Float)) where
  -- The heartbeat of one message, if it is there, decodes and is valid.
  abbrev pub accepted : Message → Option (WorkerHeartbeat f.Float)
  accepted msg = elim (decode c msg) [
    | none ↦ none
    | some hb ↦ elim (validate hb) [ ok _ ↦ some hb | err e ↦ none ]
  ]

  -- The last accepted heartbeat of a worker in a batch, and `old` if there is none.
  abbrev pub latest :
      String → List Message → Option (WorkerHeartbeat f.Float) → Option (WorkerHeartbeat f.Float)
  latest k [] old = old
  latest k (msg ∷ rest) old = latest k rest (elim (accepted msg) [
    | none ↦ old
    | some hb ↦ if str_eq hb.worker_id k then some hb else old
  ])

  take_heartbeat_lem :
      (k : String) (msg : Message) (m : Workers f.Float) (s : r.State)
      → lookup k (take_heartbeat f r c msg (m, s)).0 ≡ (elim (accepted msg) [
        | none ↦ lookup k m
        | some hb ↦ if str_eq hb.worker_id k then some hb else lookup k m
      ])
  unfolding take_heartbeat decode
  take_heartbeat_lem k msg m s = elim (Option-cases (lookup "data" msg.values)) [
    | inl e ↦ ground (arith, e)
    | inr (text, e) ↦ elim (Result-cases (c.unmarshal text)) [
      | inr (cause, e') ↦ ground (arith, e, e')
      | inl (hb, e') ↦ ground (arith, e, e', lookup-assign hb.worker_id k hb m)
    ]
  ]

  take_messages_lem :
      (k : String) (msgs : List Message) (w : Workers f.Float × r.State)
      → lookup k (take_messages f r c msgs w).0 ≡ latest k msgs (lookup k w.0)
  unfolding take_messages
  take_messages_lem k [] w = refl
  take_messages_lem k (msg ∷ rest) w =
      take_messages_lem k rest (take_heartbeat f r c msg w)
      ∙ ap (latest k rest) (take_heartbeat_lem k msg w.0 w.1)

  latest-append :
      (k : String) (xs ys : List Message) (old : Option (WorkerHeartbeat f.Float))
      → latest k (xs ++ ys) old ≡ latest k ys (latest k xs old)
  latest-append k [] ys old = refl
  latest-append k (x ∷ xs) ys old = latest-append k xs ys _

  take_streams_lem :
      (k : String) (streams : List StreamReply) (w : Workers f.Float × r.State)
      → lookup k (take_streams f r c streams w).0 ≡ latest k (messages_of streams) (lookup k w.0)
  unfolding take_streams
  take_streams_lem k [] w = refl
  take_streams_lem k (stream ∷ rest) w =
      take_streams_lem k rest (take_messages f r c stream.messages w)
      ∙ ap (latest k (messages_of rest)) (take_messages_lem k stream.messages w)
      ∙ sym (latest-append k stream.messages (messages_of rest) (lookup k w.0))

  -- What the read of a tick brings: no message where it fails or has none.
  abbrev pub batch : Result (Option (List StreamReply)) → List Message
  batch (err e) = []
  batch (ok none) = []
  batch (ok (some streams)) = messages_of streams

  -- After one tick of the heartbeat loop, the scheduler knows of each worker the last heartbeat of
  -- the batch read that names it, decodes and is valid, and what it knew before if there is none.
  pub heartbeat_tick-latest :
      (s : Scheduler f) (t : r.State) (k : String)
      → lookup k (heartbeat_tick f r c s t).0.workers
        ≡ latest k
            (batch (r.x_read_group heartbeat_group "scheduler" heartbeat_stream 100 t).0)
            (lookup k s.workers)
  unfolding heartbeat_tick
  heartbeat_tick-latest s t k =
      elim (Result-cases (r.x_read_group heartbeat_group "scheduler" heartbeat_stream 100 t).0) [
        | inr (cause, e) ↦ rw (e, heartbeat_tick) refl
        | inl (none, e) ↦ rw (e, heartbeat_tick) refl
        | inl (some streams, e) ↦
            rw (e, heartbeat_tick)
              (take_streams_lem k streams
                (s.workers, (r.x_read_group heartbeat_group "scheduler" heartbeat_stream 100 t).1))
      ]

  pub register_state :
      (q : RedisStreamQueue) (group : String) (t : r.State)
      → (register_consumer_group r q group t).1 ≡ (r.x_group_create q.job_stream group "0" t).1
  unfolding register_consumer_group
  register_state q group t = ground arith

  pub tick_without_group :
      (laws : IsRedis r) (s : Scheduler f) (t : r.State)
      → r.has_group t heartbeat_stream heartbeat_group ≡ false
      → (heartbeat_tick f r c s t).0 ≡ s
  unfolding heartbeat_tick
  tick_without_group laws s t missing =
      elim (Result-cases (r.x_read_group heartbeat_group "scheduler" heartbeat_stream 100 t).0) [
        | inr (cause, e) ↦ rw (e, heartbeat_tick) refl
        | inl (reply, e) ↦ cc (laws.x_read_group_ok t _ _ _ _ reply e)
      ]

  -- `processHeartbeats` creates its consumer group on the job stream and reads from the heartbeat
  -- stream. So where the heartbeat stream has no such group beforehand and the job stream has
  -- another name, the next tick takes in nothing.
  pub heartbeat_tick_deaf :
      (laws : IsRedis r) (s : Scheduler f) (t : r.State)
      → s.job_queue.job_stream ≢ heartbeat_stream
      → r.has_group t heartbeat_stream heartbeat_group ≡ false
      → (heartbeat_tick f r c s (prepare_heartbeats f r s t).1).0 ≡ s
  unfolding prepare_heartbeats
  heartbeat_tick_deaf laws s t apart missing = tick_without_group laws s _ (
      ground (
        arith,
        register_state s.job_queue heartbeat_group t,
        laws.x_group_create_other t s.job_queue.job_stream heartbeat_group "0" heartbeat_stream
            heartbeat_group apart,
      ))
