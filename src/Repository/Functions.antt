-- ===== src/Repository/Functions.antt =====
-- internal/repository/function.go: FunctionRepository.
use nimbus_run_a_self_hosted.Prelude.{String, some, none, List, [], ◌∷◌}
use nimbus_run_a_self_hosted.Prelude.Exec.{Exec, pure, raise, lift, ◌>>=◌}
use nimbus_run_a_self_hosted.Platform.Data.{Uuid}
use nimbus_run_a_self_hosted.Platform.Postgres.{
  Value, text, int, uuid, by_key, Postgres, insert, update, delete,
}
use nimbus_run_a_self_hosted.Models.{Function}
use nimbus_run_a_self_hosted.Repository.Rows.{wrong_count, scan_first, scan_all, scanning}

abbrev pub insert_columns : List String
insert_columns =
    "id" ∷ "user_id" ∷ "name" ∷ "entrypoint" ∷ "memory_limit" ∷ "cpu_limit" ∷ "timeout"
    ∷ "max_concurrency" ∷ []

abbrev pub select_columns : List String
select_columns =
    "id" ∷ "user_id" ∷ "name" ∷ "entrypoint" ∷ "memory_limit" ∷ "cpu_limit" ∷ "timeout"
    ∷ "max_concurrency" ∷ "active_version_id" ∷ "created_at" ∷ "updated_at" ∷ []

abbrev pub values_of : Function → List Value
values_of fn =
    uuid fn.id
    ∷ uuid fn.user_id
    ∷ text fn.name
    ∷ text fn.entrypoint
    ∷ int fn.memory_limit
    ∷ int fn.cpu_limit
    ∷ int fn.timeout
    ∷ int fn.max_concurrency
    ∷ []

-- `now` is the server's NOW().
module _ (p : Postgres) where
  unfoldable pub create : Function → Exec p.State (Unit {0})
  create fn = p.exec (insert "functions" insert_columns (values_of fn))

  unfoldable pub scan_function : List Value → Exec (Unit {0}) Function
  scan_function (a ∷ b ∷ c ∷ d ∷ e ∷ g ∷ h ∷ i ∷ j ∷ k ∷ l ∷ []) = do
    id ← lift (p.scan_uuid a)
    user_id ← lift (p.scan_uuid b)
    name ← lift (p.scan_text c)
    entrypoint ← lift (p.scan_text d)
    memory_limit ← lift (p.scan_int e)
    cpu_limit ← lift (p.scan_int g)
    timeout ← lift (p.scan_int h)
    max_concurrency ← lift (p.scan_int i)
    active_version_id ← lift (p.scan_uuid j)
    created_at ← lift (p.scan_time k)
    updated_at ← lift (p.scan_time l)
    pure (record {
      id = id;
      user_id = user_id;
      name = name;
      entrypoint = entrypoint;
      memory_limit = memory_limit;
      cpu_limit = cpu_limit;
      timeout = timeout;
      max_concurrency = max_concurrency;
      active_version_id = active_version_id;
      created_at = created_at;
      updated_at = updated_at;
    })
  scan_function _ = raise wrong_count

  unfoldable pub get_by_id : Uuid → Exec p.State Function
  unfolding scan_function
  get_by_id id = do
    found ← p.query (by_key select_columns "functions" "id" (uuid id))
    scanning (scan_first scan_function found)

  unfoldable pub list_by_user_id : Uuid → Exec p.State (List Function)
  list_by_user_id user_id = do
    found ← p.query (record {
      columns = select_columns;
      table = "functions";
      filter = some ("user_id", uuid user_id);
      order_desc = some "created_at";
      limit = none;
    })
    scanning (scan_all scan_function found)

  unfoldable pub update_active_version : Value → Uuid → Uuid → Exec p.State (Unit {0})
  update_active_version now function_id version_id = p.exec (
      update "functions" (("active_version_id", uuid version_id) ∷ ("updated_at", now) ∷ []) "id"
        (uuid function_id))

  -- The schema deletes the function's versions with it.
  unfoldable pub delete_function : Uuid → Exec p.State (Unit {0})
  delete_function id = p.exec (delete "functions" "id" (uuid id))

  unfoldable pub delete_version : Uuid → Exec p.State (Unit {0})
  delete_version version_id = p.exec (delete "function_versions" "id" (uuid version_id))
