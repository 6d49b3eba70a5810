-- ===== src/Http/Functions.antt =====
-- internal/http/handler/function_handler.go: FunctionHandler.
use nimbus_run_a_self_hosted.Prelude.{
  String, not, Option, none, some, List, [], ◌∷◌, map, str_eq, if◌then◌else◌,
}
use nimbus_run_a_self_hosted.Prelude.Exec.{Result, ok, err, Exec, pure, lift, ignore, ◌>>=◌, ◌>>◌}
use nimbus_run_a_self_hosted.Prelude.Int.{ℤ, pos, ltb_ℤ, eqb_ℤ, ◌+ℤ◌}
use nimbus_run_a_self_hosted.Prelude.Text.{atoi}
use nimbus_run_a_self_hosted.Platform.Data.{Uuid, nil_uuid, zero_time}
use nimbus_run_a_self_hosted.Platform.Postgres.{Value}
use nimbus_run_a_self_hosted.Platform.Gin.{
  string, integer, boolean, identifier, instant, no_items, Object, object, array, function,
  no_content, Response, Context, error_reply, or_reply,
}
use nimbus_run_a_self_hosted.Queue.Stream.{error_text}
use nimbus_run_a_self_hosted.Models.{Function, FunctionVersion, Invocation}
use nimbus_run_a_self_hosted.Repository.Functions
use nimbus_run_a_self_hosted.Repository.Versions
use nimbus_run_a_self_hosted.Repository.Invocations
use nimbus_run_a_self_hosted.Env.{Env, World, on_db, draw_id, parsed_id}
use nimbus_run_a_self_hosted.Http.{reply, user_id_text}

-- The body of `POST /functions`.
pub record FunctionInput : Type 0 where
  pub name : String
  pub entrypoint : String
  pub memory_limit : ℤ
  pub cpu_limit : ℤ
  pub timeout : ℤ
  pub max_concurrency : ℤ

unfoldable pub new_function : Uuid → Uuid → FunctionInput → Function
new_function id user_id input = record {
  id = id;
  user_id = user_id;
  name = input.name;
  entrypoint = input.entrypoint;
  memory_limit = input.memory_limit;
  cpu_limit = input.cpu_limit;
  timeout = input.timeout;
  max_concurrency = input.max_concurrency;
  active_version_id = nil_uuid;
  created_at = zero_time;
  updated_at = zero_time;
}

abbrev function_item : Function → Object
function_item fn =
    ("id", identifier fn.id)
    ∷ ("name", string fn.name)
    ∷ ("active_version_id", identifier fn.active_version_id)
    ∷ ("created_at", instant fn.created_at)
    ∷ []

abbrev version_item : FunctionVersion → Object
version_item v =
    ("id", identifier v.id)
    ∷ ("version_number", integer v.version_num)
    ∷ ("image_uri", string v.image_uri)
    ∷ ("status", string v.status)
    ∷ ("created_at", instant v.created_at)
    ∷ []

abbrev pub invocation_item : Invocation → Object
invocation_item inv =
    ("id", identifier inv.id)
    ∷ ("status", string inv.status)
    ∷ ("duration_ms", integer inv.duration_ms)
    ∷ ("cold_start", boolean inv.cold_start)
    ∷ ("retry_count", integer inv.retry_count)
    ∷ ("created_at", instant inv.created_at)
    ∷ []

unfoldable pub queued_version : Uuid → Uuid → ℤ → FunctionVersion
queued_version id function_id last_num = record {
  id = id;
  function_id = function_id;
  version_num = last_num +ℤ pos 1;
  image_uri = "";
  status = "QUEUED";
  created_at = zero_time;
}

-- The loop of `Rollback`: the first version with the number.
unfoldable pub find_version : ℤ → List FunctionVersion → Option FunctionVersion
find_version n [] = none
find_version n (v ∷ vs) =
    let rest = find_version n vs in if eqb_ℤ v.version_num n then some v else rest

-- The `limit` of a listing: 50 if the query parameter is no positive number.
abbrev positive_or : ℤ → Result ℤ → ℤ
positive_or limit (err cause) = limit
positive_or limit (ok n) = if ltb_ℤ (pos 0) n then n else limit

unfoldable pub listing_limit : String → ℤ
listing_limit l = if str_eq l "" then pos 50 else positive_or (pos 50) (atoi l)

module _ (e : Env) where
  -- The path's `id`; `rest` handles the request if it is an id.
  abbrev pub with_function_id : Context → (Uuid → Exec (World e) Response) → Exec (World e) Response
  with_function_id c =
      or_reply (lift (e.uuids.parse (c.param "id"))) λ _. error_reply 400 "invalid function ID"

  -- `Create` for the user that the context names.
  unfoldable pub create_for : String → FunctionInput → Exec (World e) Response
  create_for user_id input =
      or_reply (lift (e.uuids.parse user_id)) (λ _. error_reply 500 "invalid user context")
        λ uid. do
          id ← draw_id e
          or_reply (on_db e (Functions.create e.postgres (new_function id uid input)))
              (λ _. error_reply 500 "failed to create function")
              λ _. reply 201 (object (("id", identifier id) ∷ ("name", string input.name) ∷ []))

  -- `bind` is `c.ShouldBindJSON` of the request's body.
  unfoldable pub create : (String → Result FunctionInput) → Context → Exec (World e) Response
  create bind c =
      or_reply (lift (bind c.request.body)) (λ cause. error_reply 400 (error_text cause))
        λ input. do user_id ← user_id_text c.user_id; create_for user_id input

  unfoldable pub list : Context → Exec (World e) Response
  list c = do
    user_id ← user_id_text c.user_id
    or_reply (on_db e (Functions.list_by_user_id e.postgres (parsed_id e.uuids user_id)))
        (λ _. error_reply 500 "failed to list functions")
        λ funcs. reply 200 (array (map function_item funcs))

  unfoldable pub get : Context → Exec (World e) Response
  get c = with_function_id c λ fn_id.
      or_reply (on_db e (Functions.get_by_id e.postgres fn_id))
        (λ _. error_reply 404 "function not found") λ fn. reply 200 (function fn)

  unfoldable pub delete : Context → Exec (World e) Response
  delete c = with_function_id c λ fn_id.
      or_reply (on_db e (Functions.delete_function e.postgres fn_id))
        (λ _. error_reply 500 "failed to delete function") λ _. reply 204 no_content

  -- `Deploy` once the version is there; the error of the update is dropped.
  unfoldable pub build : Uuid → Uuid → ℤ → Exec (World e) Response
  build id fn_id version_num = do
    ignore (on_db e (Versions.update_status e.postgres id "BUILDING"))
    reply 202 (
        object (
          ("function_id", identifier fn_id)
          ∷ ("version_id", identifier id)
          ∷ ("version", integer version_num)
          ∷ ("status", string "BUILDING")
          ∷ ("message", string "Build initiated")
          ∷ []))

  -- `Deploy` for a function that has been found.
  unfoldable pub deploy_found : Uuid → Exec (World e) Response
  deploy_found fn_id =
      or_reply (on_db e (Versions.latest_version_number e.postgres fn_id))
        (λ _. error_reply 500 "failed to get latest version")
        λ last_num. do
          id ← draw_id e
          or_reply (on_db e (Versions.create e.postgres (queued_version id fn_id last_num)))
              (λ _. error_reply 500 "failed to create version")
              λ _. build id fn_id (last_num +ℤ pos 1)

  unfoldable pub deploy : Context → Exec (World e) Response
  deploy c = with_function_id c λ fn_id.
      or_reply (on_db e (Functions.get_by_id e.postgres fn_id))
        (λ _. error_reply 404 "function not found") λ _. deploy_found fn_id

  unfoldable pub list_versions : Context → Exec (World e) Response
  list_versions c = with_function_id c λ fn_id.
      or_reply (on_db e (Versions.list_by_function_id e.postgres fn_id))
        (λ _. error_reply 500 "failed to list versions")
        λ versions. reply 200 (array (map version_item versions))

  -- `Rollback` once the target has been looked for.
  unfoldable pub switch_to : Value → Uuid → Option FunctionVersion → Exec (World e) Response
  switch_to now fn_id none = pure (error_reply 404 "version not found")
  switch_to now fn_id (some target) =
      if not (str_eq target.status "READY")
      then pure (error_reply 400 "can only rollback to READY versions")
      else or_reply (on_db e (Functions.update_active_version e.postgres now fn_id target.id))
          (λ _. error_reply 500 "failed to rollback")
          λ _. reply 200 (
            object (
              ("function_id", identifier fn_id)
              ∷ ("active_version", identifier target.id)
              ∷ ("version_number", integer target.version_num)
              ∷ []))

  -- `now` is the server's NOW().
  unfoldable pub rollback : Value → Context → Exec (World e) Response
  rollback now c = with_function_id c λ fn_id.
      or_reply (lift (atoi (c.param "version"))) (λ _. error_reply 400 "invalid version number")
        λ n.
          or_reply (on_db e (Versions.list_by_function_id e.postgres fn_id))
            (λ _. error_reply 500 "failed to list versions")
            λ versions. switch_to now fn_id (find_version n versions)

  unfoldable pub list_by_function : Context → Exec (World e) Response
  list_by_function c = with_function_id c λ fn_id.
      or_reply
        (on_db e (
          Invocations.list_by_function_id e.postgres fn_id
            (listing_limit (c.request.query "limit"))))
        (λ _. error_reply 500 "failed to list invocations")
        λ invocations. reply 200 (array (map invocation_item invocations))

  unfoldable pub get_logs : Context → Exec (World e) Response
  get_logs c = reply 200 (object (("logs", no_items) ∷ []))
