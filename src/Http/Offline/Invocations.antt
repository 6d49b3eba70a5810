-- ===== src/Http/Offline/Invocations.antt =====
-- internal/http/handler/invocation_handler.go: the handlers work on the database alone.
use nimbus_run_a_self_hosted.Prelude.{String, refl, inl, inr, Bool-cases, ◌==◌, str_eq}
use nimbus_run_a_self_hosted.Prelude.Exec.{Result-cases}
use nimbus_run_a_self_hosted.Platform.Data.{Uuid, nil_uuid}
use nimbus_run_a_self_hosted.Platform.Gin.{Context}
use nimbus_run_a_self_hosted.Models.{Function}
use nimbus_run_a_self_hosted.Repository.Functions
use nimbus_run_a_self_hosted.Repository.Versions
use nimbus_run_a_self_hosted.Repository.Invocations
use nimbus_run_a_self_hosted.Env.{Env, World, Untouched}
use nimbus_run_a_self_hosted.Http.Functions.{listing_limit}
use nimbus_run_a_self_hosted.Http.Invocations.{pending_invocation}
use nimbus_run_a_self_hosted.Http.Invocations as InvocationHandler

module _ (e : Env) where
  pub list_by_function-Untouched :
      (c : Context) (w : World e) → Untouched w (InvocationHandler.list_by_function e c w).1
  unfolding InvocationHandler.list_by_function
  list_by_function-Untouched c w = elim (Result-cases (e.uuids.parse (c.param "id"))) [
    | inr (cause, p) ↦ rw p (refl, refl)
    | inl (fn_id, p) ↦
        elim (Result-cases (
          (Invocations.list_by_function_id e.postgres fn_id
            (listing_limit (c.request.query "limit")) w.db).0)) [
              | inr (cause, f) ↦ rw (p, f) (refl, refl)
              | inl (invs, f) ↦ rw (p, f) (refl, refl)
            ]
  ]

  record_invocation-Untouched :
      (fn_id version_id : Uuid) (key : String) (w : World e)
      → Untouched w (InvocationHandler.record_invocation e fn_id version_id key w).1
  unfolding InvocationHandler.record_invocation
  record_invocation-Untouched fn_id version_id key w =
      let inv = pending_invocation (e.uuids.created w.drawn) fn_id version_id key in
      elim (Result-cases (Invocations.create e.postgres inv w.db).0) [
        | inr (cause, f) ↦ rw f (refl, refl)
        | inl (done, f) ↦ rw f (refl, refl)
      ]

  invoke_version-Untouched :
      (fn_id version_id : Uuid) (key : String) (w : World e)
      → Untouched w (InvocationHandler.invoke_version e fn_id version_id key w).1
  unfolding InvocationHandler.invoke_version InvocationHandler.answer_existing
  invoke_version-Untouched fn_id version_id key w = elim (Bool-cases (str_eq key "")) [
    | inl empty ↦ rw empty (record_invocation-Untouched fn_id version_id key w)
    | inr given ↦ elim (Result-cases (Invocations.get_by_idempotency_key e.postgres key w.db).0) [
      | inr (cause, f) ↦ rw (given, f) (record_invocation-Untouched fn_id version_id key _)
      | inl (existing, f) ↦ rw (given, f) (refl, refl)
    ]
  ]

  invoke_function-Untouched :
      (fn_id : Uuid) (key : String) (fn : Function) (w : World e)
      → Untouched w (InvocationHandler.invoke_function e fn_id key fn w).1
  unfolding InvocationHandler.invoke_function
  invoke_function-Untouched fn_id key fn w = elim (Bool-cases (fn.active_version_id == nil_uuid)) [
    | inl unset ↦ rw unset (refl, refl)
    | inr active ↦ elim (Result-cases (Versions.get_by_id e.postgres fn.active_version_id w.db).0) [
      | inr (cause, v) ↦ rw (active, v) (refl, refl)
      | inl (ver, v) ↦ rw (active, v) (invoke_version-Untouched fn_id ver.id key _)
    ]
  ]

  pub invoke-Untouched :
      (c : Context) (w : World e) → Untouched w (InvocationHandler.invoke e c w).1
  unfolding InvocationHandler.invoke
  invoke-Untouched c w = elim (Result-cases (e.uuids.parse (c.param "id"))) [
    | inr (cause, p) ↦ rw p (refl, refl)
    | inl (fn_id, p) ↦ elim (Result-cases (Functions.get_by_id e.postgres fn_id w.db).0) [
      | inr (cause, f) ↦ rw (p, f) (refl, refl)
      | inl (fn, f) ↦
          rw (p, f) (invoke_function-Untouched fn_id (c.request.header "Idempotency-Key") fn _)
    ]
  ]
