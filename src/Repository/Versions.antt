-- ===== src/Repository/Versions.antt =====
-- internal/repository/version.go: VersionRepository.
use nimbus_run_a_self_hosted.Prelude.{String, some, none, List, [], ◌∷◌}
use nimbus_run_a_self_hosted.Prelude.Exec.{Exec, pure, raise, lift, ◌>>=◌}
use nimbus_run_a_self_hosted.Prelude.Int.{ℤ}
use nimbus_run_a_self_hosted.Platform.Data.{Uuid}
use nimbus_run_a_self_hosted.Platform.Postgres.{
  Value, text, int, uuid, by_key, Postgres, insert, update,
}
use nimbus_run_a_self_hosted.Models.{FunctionVersion}
use nimbus_run_a_self_hosted.Repository.Rows.{wrong_count, scan_first, scan_all, scanning}

abbrev pub insert_columns : List String
insert_columns = "id" ∷ "function_id" ∷ "version_number" ∷ "image_uri" ∷ "status" ∷ []

abbrev pub select_columns : List String
select_columns =
    "id" ∷ "function_id" ∷ "version_number" ∷ "image_uri" ∷ "status" ∷ "created_at" ∷ []

abbrev pub values_of : FunctionVersion → List Value
values_of v =
    uuid v.id ∷ uuid v.function_id ∷ int v.version_num ∷ text v.image_uri ∷ text v.status ∷ []

module _ (p : Postgres) where
  unfoldable pub create : FunctionVersion → Exec p.State (Unit {0})
  create v = p.exec (insert "function_versions" insert_columns (values_of v))

  unfoldable pub scan_version : List Value → Exec (Unit {0}) FunctionVersion
  scan_version (a ∷ b ∷ c ∷ d ∷ e ∷ g ∷ []) = do
    id ← lift (p.scan_uuid a)
    function_id ← lift (p.scan_uuid b)
    version_num ← lift (p.scan_int c)
    image_uri ← lift (p.scan_text d)
    status ← lift (p.scan_text e)
    created_at ← lift (p.scan_time g)
    pure (record {
      id = id;
      function_id = function_id;
      version_num = version_num;
      image_uri = image_uri;
      status = status;
      created_at = created_at;
    })
  scan_version _ = raise wrong_count

  unfoldable pub get_by_id : Uuid → Exec p.State FunctionVersion
  unfolding scan_version
  get_by_id id = do
    found ← p.query (by_key select_columns "function_versions" "id" (uuid id))
    scanning (scan_first scan_version found)

  unfoldable pub list_by_function_id : Uuid → Exec p.State (List FunctionVersion)
  list_by_function_id function_id = do
    found ← p.query (record {
      columns = select_columns;
      table = "function_versions";
      filter = some ("function_id", uuid function_id);
      order_desc = some "version_number";
      limit = none;
    })
    scanning (scan_all scan_version found)

  unfoldable pub scan_number : List Value → Exec (Unit {0}) ℤ
  scan_number (n ∷ []) = lift (p.scan_int n)
  scan_number _ = raise wrong_count

  unfoldable pub latest_version_number : Uuid → Exec p.State ℤ
  unfolding scan_number
  latest_version_number function_id = do
    found ← p.query_max "version_number" "function_versions" "function_id" (uuid function_id)
    scanning (scan_first scan_number found)

  unfoldable pub update_status : Uuid → String → Exec p.State (Unit {0})
  update_status id status =
      p.exec (update "function_versions" (("status", text status) ∷ []) "id" (uuid id))
