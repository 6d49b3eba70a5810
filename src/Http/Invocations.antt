-- ===== src/Http/Invocations.antt =====
-- internal/http/handler/invocation_handler.go: InvocationHandler.
use nimbus_run_a_self_hosted.Prelude.{String, false, [], ◌∷◌, map, ◌==◌, str_eq, if◌then◌else◌}
use nimbus_run_a_self_hosted.Prelude.Exec.{Result, ok, err, Exec, pure, attempt, ◌>>=◌}
use nimbus_run_a_self_hosted.Prelude.Int.{pos}
use nimbus_run_a_self_hosted.Platform.Data.{Uuid, nil_uuid, zero_time}
use nimbus_run_a_self_hosted.Platform.Gin.{
  string, identifier, no_items, object, array, Response, Context, error_reply, or_reply,
}
use nimbus_run_a_self_hosted.Models.{Function, Invocation}
use nimbus_run_a_self_hosted.Repository.Functions
use nimbus_run_a_self_hosted.Repository.Versions
use nimbus_run_a_self_hosted.Repository.Invocations
use nimbus_run_a_self_hosted.Env.{Env, World, on_db, draw_id}
use nimbus_run_a_self_hosted.Http.{reply}
use nimbus_run_a_self_hosted.Http.Functions.{with_function_id, invocation_item, listing_limit}

unfoldable pub pending_invocation : Uuid → Uuid → Uuid → String → Invocation
pending_invocation id function_id version_id key = record {
  id = id;
  function_id = function_id;
  version_id = version_id;
  worker_id = nil_uuid;
  status = "PENDING";
  duration_ms = pos 0;
  cold_start = false;
  retry_count = pos 0;
  error_msg = "";
  idemp_key = key;
  created_at = zero_time;
}

module _ (e : Env) where
  -- `Invoke` for a request that is no duplicate.
  unfoldable pub record_invocation : Uuid → Uuid → String → Exec (World e) Response
  record_invocation fn_id version_id key = do
    id ← draw_id e
    or_reply (on_db e (Invocations.create e.postgres (pending_invocation id fn_id version_id key)))
        (λ _. error_reply 500 "failed to create invocation")
        λ _. reply 202 (
          object (
            ("id", identifier id)
            ∷ ("status", string "PENDING")
            ∷ ("message", string "Invocation accepted and queued")
            ∷ []))

  -- An error of the lookup counts as no earlier request.
  unfoldable pub answer_existing :
      Exec (World e) Response → Result Invocation → Exec (World e) Response
  answer_existing fresh (err cause) = fresh
  answer_existing fresh (ok existing) = reply 202 (
      object (
        ("id", identifier existing.id)
        ∷ ("status", string existing.status)
        ∷ ("message", string "Duplicate request deduplicated")
        ∷ []))

  -- `Invoke` from the look at the `Idempotency-Key` on.
  unfoldable pub invoke_version : Uuid → Uuid → String → Exec (World e) Response
  invoke_version fn_id version_id key =
      if str_eq key "" then record_invocation fn_id version_id key else do
        existing ← attempt (on_db e (Invocations.get_by_idempotency_key e.postgres key))
        answer_existing (record_invocation fn_id version_id key) existing

  -- `Invoke` for a function that has been found.
  unfoldable pub invoke_function : Uuid → String → Function → Exec (World e) Response
  invoke_function fn_id key fn =
      if fn.active_version_id == nil_uuid
      then pure (error_reply 400 "no active version set")
      else or_reply (on_db e (Versions.get_by_id e.postgres fn.active_version_id))
          (λ _. error_reply 404 "active version not found") λ ver. invoke_version fn_id ver.id key

  unfoldable pub invoke : Context → Exec (World e) Response
  invoke c = with_function_id e c λ fn_id.
      or_reply (on_db e (Functions.get_by_id e.postgres fn_id))
        (λ _. error_reply 404 "function not found")
        (invoke_function fn_id (c.request.header "Idempotency-Key"))

  unfoldable pub list_by_function : Context → Exec (World e) Response
  list_by_function c = with_function_id e c λ fn_id.
      or_reply
        (on_db e (
          Invocations.list_by_function_id e.postgres fn_id
            (listing_limit (c.request.query "limit"))))
        (λ _. error_reply 500 "failed to list invocations")
        λ invocations. reply 200 (array (map invocation_item invocations))

  unfoldable pub get_logs : Context → Exec (World e) Response
  get_logs c = reply 200 (object (("logs", no_items) ∷ []))
