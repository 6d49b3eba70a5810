-- ===== src/Repository/Invocations.antt =====
-- internal/repository/invocation.go: InvocationRepository.
use nimbus_run_a_self_hosted.Prelude.{String, some, List, [], ◌∷◌}
use nimbus_run_a_self_hosted.Prelude.Exec.{Exec, pure, raise, lift, ◌>>=◌}
use nimbus_run_a_self_hosted.Prelude.Int.{ℤ}
use nimbus_run_a_self_hosted.Platform.Data.{Uuid}
use nimbus_run_a_self_hosted.Platform.Postgres.{
  Value, text, int, uuid, bool, by_key, Postgres, insert, update, increment,
}
use nimbus_run_a_self_hosted.Models.{Invocation}
use nimbus_run_a_self_hosted.Repository.Rows.{wrong_count, scan_first, scan_all, scanning}

abbrev pub insert_columns : List String
insert_columns =
    "id" ∷ "function_id" ∷ "version_id" ∷ "worker_id" ∷ "status" ∷ "duration_ms" ∷ "cold_start"
    ∷ "retry_count" ∷ "error_message" ∷ "idempotency_key" ∷ []

abbrev pub select_columns : List String
select_columns =
    "id" ∷ "function_id" ∷ "version_id" ∷ "worker_id" ∷ "status" ∷ "duration_ms" ∷ "cold_start"
    ∷ "retry_count" ∷ "error_message" ∷ "idempotency_key" ∷ "created_at" ∷ []

abbrev pub values_of : Invocation → List Value
values_of inv =
    uuid inv.id
    ∷ uuid inv.function_id
    ∷ uuid inv.version_id
    ∷ uuid inv.worker_id
    ∷ text inv.status
    ∷ int inv.duration_ms
    ∷ bool inv.cold_start
    ∷ int inv.retry_count
    ∷ text inv.error_msg
    ∷ text inv.idemp_key
    ∷ []

module _ (p : Postgres) where
  unfoldable pub create : Invocation → Exec p.State (Unit {0})
  create inv = p.exec (insert "invocations" insert_columns (values_of inv))

  unfoldable pub update_status : Uuid → String → ℤ → String → Exec p.State (Unit {0})
  update_status id status duration_ms err_msg = p.exec (
      update "invocations"
        (("status", text status)
          ∷ ("duration_ms", int duration_ms)
          ∷ ("error_message", text err_msg)
          ∷ [])
        "id" (uuid id))

  unfoldable pub scan_invocation : List Value → Exec (Unit {0}) Invocation
  scan_invocation (a ∷ b ∷ c ∷ d ∷ e ∷ g ∷ h ∷ i ∷ j ∷ k ∷ l ∷ []) = do
    id ← lift (p.scan_uuid a)
    function_id ← lift (p.scan_uuid b)
    version_id ← lift (p.scan_uuid c)
    worker_id ← lift (p.scan_uuid d)
    status ← lift (p.scan_text e)
    duration_ms ← lift (p.scan_int g)
    cold_start ← lift (p.scan_bool h)
    retry_count ← lift (p.scan_int i)
    error_msg ← lift (p.scan_text j)
    idemp_key ← lift (p.scan_text k)
    created_at ← lift (p.scan_time l)
    pure (record {
      id = id;
      function_id = function_id;
      version_id = version_id;
      worker_id = worker_id;
      status = status;
      duration_ms = duration_ms;
      cold_start = cold_start;
      retry_count = retry_count;
      error_msg = error_msg;
      idemp_key = idemp_key;
      created_at = created_at;
    })
  scan_invocation _ = raise wrong_count

  unfoldable pub get_by_id : Uuid → Exec p.State Invocation
  unfolding scan_invocation
  get_by_id id = do
    found ← p.query (by_key select_columns "invocations" "id" (uuid id))
    scanning (scan_first scan_invocation found)

  unfoldable pub get_by_idempotency_key : String → Exec p.State Invocation
  unfolding scan_invocation
  get_by_idempotency_key key = do
    found ← p.query (by_key select_columns "invocations" "idempotency_key" (text key))
    scanning (scan_first scan_invocation found)

  unfoldable pub list_by_function_id : Uuid → ℤ → Exec p.State (List Invocation)
  list_by_function_id function_id limit = do
    found ← p.query (record {
      columns = select_columns;
      table = "invocations";
      filter = some ("function_id", uuid function_id);
      order_desc = some "created_at";
      limit = some limit;
    })
    scanning (scan_all scan_invocation found)

  unfoldable pub increment_retry_count : Uuid → Exec p.State (Unit {0})
  increment_retry_count id = p.exec (increment "invocations" "retry_count" "id" (uuid id))
