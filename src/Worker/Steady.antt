-- ===== src/Worker/Steady.antt =====
-- internal/worker/service.go: the loop of a worker whose messages all have data.
use nimbus_run_a_self_hosted.Prelude.{
  String, ◌≡◌, refl, Option, none, some, inl, inr, List, [], ◌∷◌, ◌++◌, All, arith, lookup,
}
use nimbus_run_a_self_hosted.Prelude.Exec.{panic_of, Result, ok, err, Result-cases}
use nimbus_run_a_self_hosted.Prelude.Int.{ℤ}
use nimbus_run_a_self_hosted.Prelude.Loops.{Wake, context_done, woken}
use nimbus_run_a_self_hosted.Platform.Data.{Time}
use nimbus_run_a_self_hosted.Platform.Redis.{Message, StreamReply}
use nimbus_run_a_self_hosted.Queue.Delivery.{messages_of}
use nimbus_run_a_self_hosted.Worker.Service.{
  Host, Machine, Service, handle_message, handle_messages, handle_streams, process_next_job,
}
use nimbus_run_a_self_hosted.Worker.Outcomes.{handle_message_acks}
use nimbus_run_a_self_hosted.Worker.Loop.{Round, start}

-- The `data` that the type assertion of the worker wants.
abbrev pub HasData : Message → Type 0
HasData msg = (text : String) × (lookup "data" msg.values ≡ some text)

-- What the events say of the end of the loop: the error of the first context that is done.
abbrev pub first_done : {S A : Type 0} → List (Wake S A) → Option (Result (Unit {0}))
first_done [] = none
first_done (context_done cause ∷ rest) = some (err cause)
first_done (woken meanwhile round ∷ rest) = first_done rest

All-before : {A : Type 0} (P : A → Type 0) (xs ys : List A) → All P (xs ++ ys) → All P xs × All P ys
All-before P [] ys h = (tt, h)
All-before P (x ∷ xs) ys h = let (before, after) = All-before P xs ys h.1 in ((h.0, before), after)

module _ (h : Host) (svc : Service) where
  handle_messages_ok :
      (elapsed : ℤ) (now : Time) (msgs : List Message) (w : Machine h)
      → All HasData msgs
      → (handle_messages h svc elapsed now msgs w).0 ≡ ok tt
  unfolding handle_messages
  handle_messages_ok elapsed now [] w full = refl
  handle_messages_ok elapsed now (msg ∷ rest) w full =
      let (text, held) = full.0 in
      let done = (handle_message_acks h svc elapsed now msg text w held).0 in
      rw (done, handle_messages)
        (handle_messages_ok elapsed now rest (handle_message h svc elapsed now msg w).1 full.1)

  handle_streams_ok :
      (elapsed : ℤ) (now : Time) (streams : List StreamReply) (w : Machine h)
      → All HasData (messages_of streams)
      → (handle_streams h svc elapsed now streams w).0 ≡ ok tt
  unfolding handle_streams
  handle_streams_ok elapsed now [] w full = refl
  handle_streams_ok elapsed now (stream ∷ rest) w full =
      let (first, others) = All-before HasData stream.messages (messages_of rest) full in
      let done = handle_messages_ok elapsed now stream.messages w first in
      rw (done, handle_streams)
        (handle_streams_ok elapsed now rest (handle_messages h svc elapsed now stream.messages w).1
          others)

  -- The read of the worker in this state reports a failure as an error, and brings only messages with
  -- data.
  pub record ReadsWell (s : h.redis.State) : Type 0 where
    pub read_calm :
        panic_of (h.redis.x_read_group svc.worker_id svc.consumer_name svc.queue_name 1 s).0 ≡ none
    pub read_full :
        (streams : List StreamReply)
        → (h.redis.x_read_group svc.worker_id svc.consumer_name svc.queue_name 1 s).0
          ≡ ok (some streams)
        → All HasData (messages_of streams)

  process_next_job_calm :
      (elapsed : ℤ) (now : Time) (w : Machine h)
      → ReadsWell w.redis
      → panic_of (process_next_job h svc elapsed now w).0 ≡ none
  unfolding process_next_job
  process_next_job_calm elapsed now w reads =
      let read = h.redis.x_read_group svc.worker_id svc.consumer_name svc.queue_name 1 in
      elim (Result-cases (read w.redis).0) [
        | inr (cause, e) ↦ ground (arith, e, reads.read_calm)
        | inl (none, e) ↦ rw (e, process_next_job) refl
        | inl (some streams, e) ↦
            let after : Machine h = record w { redis = (read w.redis).1 } in
            let done = handle_streams_ok elapsed now streams after (reads.read_full streams e) in
            rw (e, process_next_job) (rw (done) refl)
      ]

  -- Each read that the loop makes in the course of these events, up to the end of a context, is such a
  -- read.
  abbrev pub Supplied : List (Wake (Machine h) Round) → Machine h → Type 0
  Supplied [] w = Unit {0}
  Supplied (context_done cause ∷ rest) w = Unit {0}
  Supplied (woken meanwhile round ∷ rest) w =
      ReadsWell (meanwhile w).redis
      × Supplied rest (process_next_job h svc round.elapsed round.now (meanwhile w)).1

  -- If the reads that the worker's loop makes fail only with errors, and bring only messages with data,
  -- then the loop ends exactly as its events say: it goes on through every round, whatever errors the
  -- rounds meet and whatever becomes of the jobs, until its select yields the end of the context, and
  -- returns the context's error.
  pub start-first_done :
      (events : List (Wake (Machine h) Round)) (w : Machine h)
      → Supplied events w
      → (start h svc events w).0 ≡ first_done events
  unfolding start
  start-first_done [] w supplied = refl
  start-first_done (context_done cause ∷ rest) w supplied = refl
  start-first_done (woken meanwhile round ∷ rest) w supplied =
      let calm = process_next_job_calm round.elapsed round.now (meanwhile w) supplied.0 in
      rw (calm, start)
        (start-first_done rest (process_next_job h svc round.elapsed round.now (meanwhile w)).1
          supplied.1)
