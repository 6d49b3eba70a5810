-- ===== src/Queue/Delivery.antt =====
-- internal/queue/redis.go: what an enqueued job leaves in its stream, and what a read returns.
use mathlib.Core.Path.{ap₂}
use mathlib.Core.Option
use mathlib.Core.List.{filter_map, filter_map-cons-none, filter_map-cons-some, filter_map-append}
use nimbus_run_a_self_hosted.Prelude.{
  ℕ, String, ◌≡◌, refl, sym, subst, ap, ◌∙◌, Option-cases, inl, inr, Option, none, some, List, [],
  ◌∷◌, ◌++◌, arith, eq_iff, lookup, str_eq, if◌then◌else◌, Bool-cases,
}
use nimbus_run_a_self_hosted.Prelude.Exec.{ok, err, Result-cases, wrapped}
use nimbus_run_a_self_hosted.Platform.Data.{Codec, IsCodec, Uuid, UuidLib}
use nimbus_run_a_self_hosted.Platform.Redis.{Redis, IsRedis, Message, StreamReply}
use nimbus_run_a_self_hosted.Queue.Types.{Job}
use nimbus_run_a_self_hosted.Queue.Stream.{
  RedisStreamQueue, decode, decode_all, decode_streams, enqueue_job, enqueue_job_to_stream,
  dequeue_jobs, err_no_jobs, queued_by,
}

-- The messages of all streams of a reply, in their order.
abbrev pub messages_of : List StreamReply → List Message
messages_of [] = []
messages_of (stream ∷ rest) = stream.messages ++ messages_of rest

module _ {A B : Type 0} (c : Codec A) (wrap_up : String → A → B) where
  -- What a message gives, if it decodes.
  abbrev pub carried : Message → Option B
  carried msg = Option.map (wrap_up msg.id) (decode c msg)

  decode_all_lem : (xs : List Message) → decode_all c wrap_up xs ≡ filter_map carried xs
  unfolding decode_all filter_map
  decode_all_lem [] = refl
  decode_all_lem (x ∷ xs) = elim (Option-cases (decode c x)) [
    | inl e ↦
        rw (filter_map-cons-none carried x xs (ap (Option.map (wrap_up x.id)) e))
          (rw (e, decode_all) (decode_all_lem xs))
    | inr (a, e) ↦
        rw (filter_map-cons-some carried x xs (ap (Option.map (wrap_up x.id)) e))
          (rw (e, decode_all) (ap (◌∷◌ (wrap_up x.id a)) (decode_all_lem xs)))
  ]

  pub decode_streams_lem :
      (streams : List StreamReply)
      → decode_streams c wrap_up streams ≡ filter_map carried (messages_of streams)
  unfolding decode_streams filter_map
  decode_streams_lem [] = refl
  decode_streams_lem (s ∷ rest) =
      ap₂ ◌++◌ (decode_all_lem s.messages) (decode_streams_lem rest)
      ∙ sym (filter_map-append carried s.messages (messages_of rest))

module _ {A : Type 0} (r : Redis) (c : Codec A) where
  -- Between the two states a stream has gained one message, at its end, which carries the value,
  -- and every other stream is as it was.
  pub record Gains (s t : r.State) (stream : String) (a : A) : Type 0 where
    pub message : Message
    pub carries : decode c message ≡ some a
    pub gained :
        (key : String)
        → r.entries t key
          ≡ (if str_eq stream key then r.entries s key ++ message ∷ [] else r.entries s key)

  -- What keeps every stream keeps a gain.
  pub Gains-keep :
      (s t v : r.State) (stream : String) (a : A)
      → ((key : String) → r.entries v key ≡ r.entries t key)
      → Gains s t stream a
      → Gains s v stream a
  Gains-keep s t v stream a keep g = record {
    message = g.message;
    carries = g.carries;
    gained = λ key. keep key ∙ g.gained key;
  }

  -- A message that is added with the encoded value is a gain.
  pub x_add-Gains :
      (laws : IsRedis r) (s : r.State) (stream : String) (values : List (String × String))
      (text id : String) (a : A)
      → lookup "data" values ≡ some text
      → c.unmarshal text ≡ ok a
      → (r.x_add stream values s).0 ≡ ok id
      → Gains s (r.x_add stream values s).1 stream a
  unfolding decode
  x_add-Gains laws s stream values text id a held decoded e = record {
    message = record { id = id; values = values };
    carries = ground (arith, held, decoded);
    gained = λ key. elim (Bool-cases (str_eq stream key)) [
      | inl same ↦ rw (same, sym ((eq_iff stream key).0 same)) (laws.x_add_ok s stream values id e)
      | inr apart ↦
          rw apart
            (laws.x_add_other s stream values id key e (ground (arith, apart, eq_iff stream key)))
    ];
  }

module _ (r : Redis) (jobs : Codec Job) where
  module _ (u : UuidLib) (laws : IsRedis r) (codec : IsCodec jobs) where
    added :
        (s : r.State) (stream job_id text id : String) (job : Job)
        → jobs.marshal job ≡ ok text
        → (r.x_add stream (("job_id", job_id) ∷ ("data", text) ∷ []) s).0 ≡ ok id
        → Gains r jobs s (r.x_add stream (("job_id", job_id) ∷ ("data", text) ∷ []) s).1 stream job
    unfolding lookup
    added s stream job_id text id job m e =
        x_add-Gains r jobs laws s stream _ text id job refl (codec.unmarshal-marshal job text m) e

    pub enqueue_job-Gains :
        (q : RedisStreamQueue) (s : r.State) (job : Job)
        → (enqueue_job r q u jobs job s).0 ≡ ok tt
        → Gains r jobs s (enqueue_job r q u jobs job s).1 q.job_stream job
    unfolding enqueue_job
    enqueue_job-Gains q s job done = elim (Result-cases (jobs.marshal job)) [
      | inr (cause, m) ↦ absurd (ground (arith, m))
      | inl (text, m) ↦
          elim (Result-cases
            (r.x_add q.job_stream (("job_id", u.format job.id) ∷ ("data", text) ∷ []) s).0) [
              | inr (cause, e) ↦ absurd (ground (arith, m, e))
              | inl (id, e) ↦
                  let after : (enqueue_job r q u jobs job s).1
                      ≡ (r.x_add q.job_stream (("job_id", u.format job.id) ∷ ("data", text) ∷ [])
                          s).1 =
                    ground (arith, m) in
                  subst (λ t. Gains r jobs s t q.job_stream job) (sym after)
                    (added s q.job_stream _ text id job m e)
            ]
    ]

    pub enqueue_job_to_stream-Gains :
        (q : RedisStreamQueue) (fresh : Uuid) (stream : String) (s : r.State) (job : Job)
        → (enqueue_job_to_stream r q u jobs fresh stream job s).0 ≡ ok tt
        → Gains r jobs s (enqueue_job_to_stream r q u jobs fresh stream job s).1 stream job
    unfolding enqueue_job_to_stream
    enqueue_job_to_stream-Gains q fresh stream s job done = elim (Result-cases (jobs.marshal job)) [
      | inr (cause, m) ↦ absurd (ground (arith, m))
      | inl (text, m) ↦
          elim (Result-cases
            (r.x_add stream (("job_id", u.format fresh) ∷ ("data", text) ∷ []) s).0) [
              | inr (cause, e) ↦ absurd (ground (arith, m, e))
              | inl (id, e) ↦
                  let after : (enqueue_job_to_stream r q u jobs fresh stream job s).1
                      ≡ (r.x_add stream (("job_id", u.format fresh) ∷ ("data", text) ∷ []) s).1 =
                    ground (arith, m) in
                  subst (λ t. Gains r jobs s t stream job) (sym after)
                    (added s stream _ text id job m e)
            ]
    ]

  -- `DequeueJobs` returns, in the order of the messages over all streams of the reply, a job for
  -- each message that carries one and nothing for the others; an empty reply is `ErrNoJobs`, and
  -- another error is passed on wrapped.
  pub dequeue_jobs_lem :
      (q : RedisStreamQueue) (group consumer : String) (count : ℕ) (s : r.State)
      → (dequeue_jobs r q jobs group consumer count s).0
        ≡ (elim (r.x_read_group group consumer q.job_stream count s).0 [
          | err cause ↦ err (wrapped "xreadgroup" cause)
          | ok reply ↦ elim reply [
            | none ↦ err err_no_jobs
            | some streams ↦
                ok (filter_map (carried jobs (queued_by consumer)) (messages_of streams))
          ]
        ])
  unfolding dequeue_jobs
  dequeue_jobs_lem q group consumer count s =
      elim (Result-cases (r.x_read_group group consumer q.job_stream count s).0) [
        | inr (cause, e) ↦ ground (arith, e)
        | inl (none, e) ↦ ground (arith, e)
        | inl (some streams, e) ↦
            ground (arith, e, decode_streams_lem jobs (queued_by consumer) streams)
      ]
