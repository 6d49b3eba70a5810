-- ===== src/Queue/Stream.antt =====
-- internal/queue/redis.go: RedisStreamQueue. The client is the parameter `r`; an id of the uuid
-- library is handed in where the source draws one.
use Prim.Native.String.{◌++◌ as str_append}
use nimbus_run_a_self_hosted.Prelude.{
  ℕ, String, Option, none, some, List, [], ◌∷◌, ◌++◌, str_eq, if◌then◌else◌, lookup,
}
use nimbus_run_a_self_hosted.Prelude.Exec.{
  Error, errorf, panicked, wrapped, ok, err, Exec, pure, raise, wrap_with, wrap, lift, attempt,
  ◌>>=◌, ◌>>◌,
}
use nimbus_run_a_self_hosted.Prelude.Int.{ℤ}
use nimbus_run_a_self_hosted.Platform.Data.{Codec, text_or_empty, Uuid, UuidLib}
use nimbus_run_a_self_hosted.Platform.Redis.{Redis, Message, StreamReply}
use nimbus_run_a_self_hosted.Queue.Types.{Job, JobResult, QueuedJob}

pub record RedisStreamQueue : Type 0 where
  pub job_stream : String
  pub result_stream : String

abbrev pub err_no_jobs : Error
err_no_jobs = errorf "no jobs available"

-- `err.Error()`
abbrev pub error_text : Error → String
error_text (errorf m) = m
error_text (panicked m) = m
error_text (wrapped m e) = str_append m (str_append ": " (error_text e))

-- The values of one message of a stream whose `data` is text and decodes.
unfoldable pub decode : {A : Type 0} → Codec A → Message → Option A
decode c msg = elim (lookup "data" msg.values) [
  | none ↦ none
  | some text ↦ elim (c.unmarshal text) [ ok a ↦ some a | err e ↦ none ]
]

-- The inner loop of a read: messages that do not decode are skipped.
unfoldable pub decode_all : {A B : Type 0} → Codec A → (String → A → B) → List Message → List B
decode_all c wrap_up [] = []
decode_all c wrap_up (msg ∷ rest) =
    let later = decode_all c wrap_up rest in
    elim (decode c msg) [ none ↦ later | some a ↦ wrap_up msg.id a ∷ later ]

unfoldable pub decode_streams :
    {A B : Type 0} → Codec A → (String → A → B) → List StreamReply → List B
decode_streams c wrap_up [] = []
decode_streams c wrap_up (stream ∷ rest) =
    decode_all c wrap_up stream.messages ++ decode_streams c wrap_up rest

abbrev pub queued_by : String → String → Job → QueuedJob
queued_by consumer id job = record { id = id; job = job; claim = consumer }

module _ (r : Redis) (q : RedisStreamQueue) where
  unfoldable pub register_consumer_group : String → Exec r.State (Unit {0})
  register_consumer_group group = do
    created ← attempt (r.x_group_create q.job_stream group "0")
    elim created [
      | ok _ ↦ pure tt
      | err e ↦
          if str_eq (error_text e) "BUSYGROUP Consumer Group name already exists"
          then pure tt
          else raise (wrapped "creating consumer group" e)
    ]

  unfoldable pub ack_job : String → String → Exec r.State (Unit {0})
  ack_job group job_id = r.x_ack q.job_stream group job_id

  unfoldable pub get_pending_count : Exec r.State ℕ
  get_pending_count = r.x_pending q.job_stream "nimbusrun:workers"

  unfoldable pub get_queue_depth : Exec r.State ℕ
  get_queue_depth = r.x_len q.job_stream

  unfoldable pub delete_job : String → Exec r.State (Unit {0})
  delete_job job_id = r.x_del q.job_stream job_id

  unfoldable pub dlq_stream : String
  dlq_stream = str_append q.job_stream ":dlq"

  unfoldable pub get_dlq_entries : ℕ → Exec r.State (List Message)
  unfolding dlq_stream
  get_dlq_entries count = r.x_range dlq_stream "-" "+"

  module _ (u : UuidLib) (jobs : Codec Job) where
    unfoldable pub enqueue_job : Job → Exec r.State (Unit {0})
    enqueue_job job = do
      text ← lift (wrap "marshaling job" (jobs.marshal job))
      wrap_with "xadd to stream"
          (r.x_add q.job_stream (("job_id", u.format job.id) ∷ ("data", text) ∷ []))
      pure tt

    -- `fresh` is the id that `uuid.New` returns in the call.
    unfoldable pub enqueue_job_to_stream : Uuid → String → Job → Exec r.State (Unit {0})
    enqueue_job_to_stream fresh stream job = do
      text ← lift (wrap "marshaling job" (jobs.marshal job))
      r.x_add stream (("job_id", u.format fresh) ∷ ("data", text) ∷ [])
      pure tt

    unfoldable pub enqueue_dlq : Uuid → ℤ → Job → String → Exec r.State (Unit {0})
    unfolding dlq_stream
    enqueue_dlq fresh now job message = do
      r.x_add dlq_stream (
          ("job_id", u.format fresh)
          ∷ ("data", text_or_empty (jobs.marshal job))
          ∷ ("error", message)
          ∷ ("timestamp", r.format_int now)
          ∷ [])
      pure tt

  module _ (jobs : Codec Job) where
    unfoldable pub dequeue_jobs : String → String → ℕ → Exec r.State (List QueuedJob)
    dequeue_jobs group consumer count = do
      reply ← wrap_with "xreadgroup" (r.x_read_group group consumer q.job_stream count)
      elim reply [
        | none ↦ raise err_no_jobs
        | some streams ↦ pure (decode_streams jobs (queued_by consumer) streams)
      ]

  unfoldable pub read_results : Codec JobResult → String → ℕ → Exec r.State (List JobResult)
  read_results results last count = do
    reply ← r.x_read q.result_stream last count
    elim reply [
      | none ↦ pure []
      | some streams ↦
          pure (decode_streams results (λ id result. record result { message_id = id }) streams)
    ]
