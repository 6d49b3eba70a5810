-- ===== src/Retry/Dlq.antt =====
-- internal/retry/retrier.go: DLQService, the dead-letter queue in Redis and in the database.
use nimbus_run_a_self_hosted.Prelude.{String, some, none, List, [], ◌∷◌}
use nimbus_run_a_self_hosted.Prelude.Exec.{Exec, pure, raise, lift, ignore, wrap_with, ◌>>=◌, ◌>>◌}
use nimbus_run_a_self_hosted.Prelude.Int.{pos}
use nimbus_run_a_self_hosted.Platform.Data.{Uuid, Time, unix}
use nimbus_run_a_self_hosted.Platform.Postgres.{Value, text, int, uuid, time, insert, delete}
use nimbus_run_a_self_hosted.Models.{DlqEntry}
use nimbus_run_a_self_hosted.Queue.Types.{Job}
use nimbus_run_a_self_hosted.Queue.Stream.{RedisStreamQueue, enqueue_dlq}
use nimbus_run_a_self_hosted.Repository.Rows.{wrong_count, scan_all, scanning}
use nimbus_run_a_self_hosted.Env.{Env, World, on_redis, on_db, draw_id, parsed_id}

abbrev pub columns : List String
columns = "id" ∷ "function_id" ∷ "version_id" ∷ "attempt_count" ∷ "last_error" ∷ "created_at" ∷ []

module _ (e : Env) where
  unfoldable pub insert_entry : DlqEntry → Exec (World e) (Unit {0})
  insert_entry entry = on_db e (
      e.postgres.exec (
        insert "dlq_invocations" columns (
          uuid entry.id
          ∷ uuid entry.function_id
          ∷ uuid entry.version_id
          ∷ int entry.attempts
          ∷ text entry.last_error
          ∷ time entry.created_at
          ∷ [])))

  -- Failures of either write are logged, and the call succeeds.
  unfoldable pub enqueue : RedisStreamQueue → Time → Job → String → Exec (World e) (Unit {0})
  unfolding insert_entry
  enqueue q now job err_msg = do
    fresh ← draw_id e
    ignore (on_redis e (enqueue_dlq e.redis q e.uuids e.jobs fresh (unix now) job err_msg))
    id ← draw_id e
    ignore (
        insert_entry (record {
          id = id;
          function_id = parsed_id e.uuids job.function_id;
          version_id = parsed_id e.uuids job.version_id;
          attempts = job.retry_count;
          last_error = err_msg;
          created_at = now;
        }))

  unfoldable pub scan_entry : List Value → Exec (Unit {0}) DlqEntry
  scan_entry (a ∷ b ∷ c ∷ d ∷ g ∷ h ∷ []) = do
    id ← lift (e.postgres.scan_uuid a)
    function_id ← lift (e.postgres.scan_uuid b)
    version_id ← lift (e.postgres.scan_uuid c)
    attempts ← lift (e.postgres.scan_int d)
    last_error ← lift (e.postgres.scan_text g)
    created_at ← lift (e.postgres.scan_time h)
    pure (record {
      id = id;
      function_id = function_id;
      version_id = version_id;
      attempts = attempts;
      last_error = last_error;
      created_at = created_at;
    })
  scan_entry _ = raise wrong_count

  unfoldable pub list : Exec (World e) (List DlqEntry)
  unfolding scan_entry
  list = on_db e do
    found ← e.postgres.query (record {
      columns = columns;
      table = "dlq_invocations";
      filter = none;
      order_desc = some "created_at";
      limit = some (pos 100);
    })
    scanning (scan_all scan_entry found)

  unfoldable pub retry_from_dlq : Uuid → Exec (World e) (Unit {0})
  retry_from_dlq entry_id =
      wrap_with "removing DLQ entry"
        (on_db e (e.postgres.exec (delete "dlq_invocations" "id" (uuid entry_id))))
