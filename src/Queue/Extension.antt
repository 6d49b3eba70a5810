-- ===== src/Queue/Extension.antt =====
-- internal/queue/redis.go: what the commands of the programs leave as it was in Redis.
use mathlib.Core.List.{append-nil, append_assoc}
use nimbus_run_a_self_hosted.Prelude.{
  ℕ, String, ◌≡◌, ◌≢◌, false, sym, subst, ap, ◌∙◌, inl, inr, none, some, List, [], ◌∷◌, ◌++◌,
}
use nimbus_run_a_self_hosted.Prelude.Exec.{Result-cases}
use nimbus_run_a_self_hosted.Prelude.Int.{ℤ}
use nimbus_run_a_self_hosted.Platform.Data.{Codec, text_or_empty, Uuid, UuidLib}
use nimbus_run_a_self_hosted.Platform.Redis.{Redis, IsRedis, Message}
use nimbus_run_a_self_hosted.Idempotency.{idem_key, lock_key}
use nimbus_run_a_self_hosted.Queue.Types.{Job}
use nimbus_run_a_self_hosted.Queue.Stream.{
  RedisStreamQueue, enqueue_job, enqueue_job_to_stream, enqueue_dlq, dlq_stream, dequeue_jobs,
}

-- Not a name under which the idempotency service keeps a result or a lock.
abbrev pub Apart : String → Type 0
Apart key = (k : String) → (idem_key k ≢ key) × (lock_key k ≢ key)

module _ (r : Redis) where
  -- Between the two states no consumer group has been created, and messages have only been added at
  -- the ends of the streams, save those whose names the idempotency service uses.
  pub record Extends (s t : r.State) : Type 0 where
    pub groups :
        (key group : String) → r.has_group s key group ≡ false → r.has_group t key group ≡ false
    pub grown :
        (key : String)
        → Apart key
        → (more : List Message) × (r.entries t key ≡ r.entries s key ++ more)

  pub Extends-refl : (s : r.State) → Extends s s
  Extends-refl s = record {
    groups = λ key group without. without;
    grown = λ key apart. ([], sym (append-nil (r.entries s key)));
  }

  pub Extends-trans : (s t u : r.State) → Extends s t → Extends t u → Extends s u
  Extends-trans s t u first second = record {
    groups = λ key group without. second.groups key group (first.groups key group without);
    grown = λ key apart.
        let more = (first.grown key apart).0 in
        let others = (second.grown key apart).0 in
        (
          more ++ others,
          (second.grown key apart).1
              ∙ ap (λ old. old ++ others) (first.grown key apart).1
              ∙ append_assoc (r.entries s key) more others,
        );
  }

  -- A command that leaves the streams and the groups alone.
  kept :
      (s t : r.State)
      → ((key group : String) → r.has_group t key group ≡ r.has_group s key group)
      → ((key : String) → r.entries t key ≡ r.entries s key)
      → Extends s t
  kept s t groups same = record {
    groups = λ key group without. groups key group ∙ without;
    grown = λ key apart. ([], same key ∙ sym (append-nil (r.entries s key)));
  }

  module _ (laws : IsRedis r) where
    pub x_add-Extends :
        (s : r.State) (key : String) (values : List (String × String))
        → Extends s (r.x_add key values s).1
    x_add-Extends s key values = record {
      groups = λ other group without. laws.x_add_group s key values other group ∙ without;
      grown = λ other apart. laws.x_add_grows s key values other;
    }

    pub x_ack-Extends : (s : r.State) (key group id : String) → Extends s (r.x_ack key group id s).1
    x_ack-Extends s key group id =
        kept s (r.x_ack key group id s).1 (laws.x_ack_group s key group id)
          (laws.x_ack_entries s key group id)

    pub x_read_group-Extends :
        (s : r.State) (group consumer key : String) (count : ℕ)
        → Extends s (r.x_read_group group consumer key count s).1
    x_read_group-Extends s group consumer key count =
        kept s (r.x_read_group group consumer key count s).1
          (laws.x_read_group_group s group consumer key count)
          (laws.x_read_group_entries s group consumer key count)

    pub get-Extends : (s : r.State) (k : String) → Extends s (r.get k s).1
    get-Extends s k = kept s (r.get k s).1 (laws.get_group s k) (laws.get_entries s k)

    pub set-Extends :
        (s : r.State) (k v : String) (ttl : ℕ)
        → ((key : String) → Apart key → k ≢ key)
        → Extends s (r.set k v ttl s).1
    set-Extends s k v ttl named = record {
      groups = laws.set_group s k v ttl;
      grown = λ key apart. (
        [],
        laws.set_entries s k v ttl key (named key apart) ∙ sym (append-nil (r.entries s key)),
      );
    }

    pub set_nx-Extends : (s : r.State) (k v : String) (ttl : ℕ) → Extends s (r.set_nx k v ttl s).1
    set_nx-Extends s k v ttl =
        kept s (r.set_nx k v ttl s).1 (laws.set_nx_group s k v ttl) (laws.set_nx_entries s k v ttl)

    pub call_del-Extends :
        (s : r.State) (k : String)
        → ((key : String) → Apart key → k ≢ key)
        → Extends s (r.call_del k s).1
    call_del-Extends s k named = record {
      groups = laws.call_del_group k s;
      grown = λ key apart. (
        [],
        laws.call_del_entries k s key (named key apart) ∙ sym (append-nil (r.entries s key)),
      );
    }

    pub eval-Extends :
        (s : r.State) (f : r.State → ℕ × r.State) → Extends s (f s).1 → Extends s (r.eval f s).1
    eval-Extends s f done = elim (laws.eval_whole s f) [
      | inl whole ↦ subst (λ t. Extends s t) (sym whole) done
      | inr none_of_it ↦ subst (λ t. Extends s t) (sym none_of_it) (Extends-refl s)
    ]

    module _ (q : RedisStreamQueue) (jobs : Codec Job) where
      pub enqueue_job-Extends :
          (u : UuidLib) (job : Job) (s : r.State) → Extends s (enqueue_job r q u jobs job s).1
      unfolding enqueue_job
      enqueue_job-Extends u job s = elim (Result-cases (jobs.marshal job)) [
        | inr (cause, m) ↦ rw (m, enqueue_job) (Extends-refl s)
        | inl (text, m) ↦
            let values : List (String × String) =
              ("job_id", u.format job.id) ∷ ("data", text) ∷ [] in
            elim (Result-cases (r.x_add q.job_stream values s).0) [
              | inr (cause, e) ↦ rw (m, enqueue_job) (rw (e) (x_add-Extends s q.job_stream values))
              | inl (id, e) ↦ rw (m, enqueue_job) (rw (e) (x_add-Extends s q.job_stream values))
            ]
      ]

      pub enqueue_job_to_stream-Extends :
          (u : UuidLib) (fresh : Uuid) (stream : String) (job : Job) (s : r.State)
          → Extends s (enqueue_job_to_stream r q u jobs fresh stream job s).1
      unfolding enqueue_job_to_stream
      enqueue_job_to_stream-Extends u fresh stream job s = elim (Result-cases (jobs.marshal job)) [
        | inr (cause, m) ↦ rw (m, enqueue_job_to_stream) (Extends-refl s)
        | inl (text, m) ↦
            let values : List (String × String) =
              ("job_id", u.format fresh) ∷ ("data", text) ∷ [] in
            elim (Result-cases (r.x_add stream values s).0) [
              | inr (cause, e) ↦
                  rw (m, enqueue_job_to_stream) (rw (e) (x_add-Extends s stream values))
              | inl (id, e) ↦ rw (m, enqueue_job_to_stream) (rw (e) (x_add-Extends s stream values))
            ]
      ]

      pub enqueue_dlq-Extends :
          (u : UuidLib) (fresh : Uuid) (now : ℤ) (job : Job) (message : String) (s : r.State)
          → Extends s (enqueue_dlq r q u jobs fresh now job message s).1
      unfolding enqueue_dlq
      enqueue_dlq-Extends u fresh now job message s =
          let values : List (String × String) =
            ("job_id", u.format fresh)
            ∷ ("data", text_or_empty (jobs.marshal job))
            ∷ ("error", message)
            ∷ ("timestamp", r.format_int now)
            ∷ [] in
          elim (Result-cases (r.x_add (dlq_stream r q) values s).0) [
            | inr (cause, e) ↦ rw (e, enqueue_dlq) (x_add-Extends s (dlq_stream r q) values)
            | inl (id, e) ↦ rw (e, enqueue_dlq) (x_add-Extends s (dlq_stream r q) values)
          ]

      pub dequeue_jobs-Extends :
          (group consumer : String) (count : ℕ) (s : r.State)
          → Extends s (dequeue_jobs r q jobs group consumer count s).1
      unfolding dequeue_jobs
      dequeue_jobs-Extends group consumer count s =
          let read = x_read_group-Extends s group consumer q.job_stream count in
          elim (Result-cases (r.x_read_group group consumer q.job_stream count s).0) [
            | inr (cause, e) ↦ rw (e, dequeue_jobs) read
            | inl (none, e) ↦ rw (e, dequeue_jobs) read
            | inl (some streams, e) ↦ rw (e, dequeue_jobs) read
          ]
