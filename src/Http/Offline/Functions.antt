-- ===== src/Http/Offline/Functions.antt =====
-- internal/http/handler/function_handler.go: the handlers work on the database alone.
use nimbus_run_a_self_hosted.Prelude.{
  String, refl, inl, inr, Option, none, some, Option-cases, Bool-cases, str_eq,
}
use nimbus_run_a_self_hosted.Prelude.Text.{atoi}
use nimbus_run_a_self_hosted.Prelude.Exec.{Result, Result-cases}
use nimbus_run_a_self_hosted.Platform.Data.{Uuid}
use nimbus_run_a_self_hosted.Platform.Postgres.{Value}
use nimbus_run_a_self_hosted.Platform.Gin.{Context}
use nimbus_run_a_self_hosted.Models.{FunctionVersion}
use nimbus_run_a_self_hosted.Repository.Functions
use nimbus_run_a_self_hosted.Repository.Versions
use nimbus_run_a_self_hosted.Env.{Env, World, Untouched, parsed_id}
use nimbus_run_a_self_hosted.Http.Functions.{
  FunctionInput, new_function, queued_version, find_version, listing_limit,
}
use nimbus_run_a_self_hosted.Http.Functions as FunctionHandler

module _ (e : Env) where
  pub get-Untouched : (c : Context) (w : World e) → Untouched w (FunctionHandler.get e c w).1
  unfolding FunctionHandler.get
  get-Untouched c w = elim (Result-cases (e.uuids.parse (c.param "id"))) [
    | inr (cause, p) ↦ rw p (refl, refl)
    | inl (fn_id, p) ↦ elim (Result-cases ((Functions.get_by_id e.postgres fn_id w.db).0)) [
      | inr (cause, f) ↦ rw (p, f) (refl, refl)
      | inl (fn, f) ↦ rw (p, f) (refl, refl)
    ]
  ]

  pub delete-Untouched : (c : Context) (w : World e) → Untouched w (FunctionHandler.delete e c w).1
  unfolding FunctionHandler.delete
  delete-Untouched c w = elim (Result-cases (e.uuids.parse (c.param "id"))) [
    | inr (cause, p) ↦ rw p (refl, refl)
    | inl (fn_id, p) ↦ elim (Result-cases ((Functions.delete_function e.postgres fn_id w.db).0)) [
      | inr (cause, f) ↦ rw (p, f) (refl, refl)
      | inl (done, f) ↦ rw (p, f) (refl, refl)
    ]
  ]

  pub list_versions-Untouched :
      (c : Context) (w : World e) → Untouched w (FunctionHandler.list_versions e c w).1
  unfolding FunctionHandler.list_versions
  list_versions-Untouched c w = elim (Result-cases (e.uuids.parse (c.param "id"))) [
    | inr (cause, p) ↦ rw p (refl, refl)
    | inl (fn_id, p) ↦
        elim (Result-cases ((Versions.list_by_function_id e.postgres fn_id w.db).0)) [
          | inr (cause, f) ↦ rw (p, f) (refl, refl)
          | inl (vs, f) ↦ rw (p, f) (refl, refl)
        ]
  ]

  pub deploy-Untouched : (c : Context) (w : World e) → Untouched w (FunctionHandler.deploy e c w).1
  unfolding FunctionHandler.deploy FunctionHandler.deploy_found FunctionHandler.build
  deploy-Untouched c w = elim (Result-cases (e.uuids.parse (c.param "id"))) [
    | inr (cause, p) ↦ rw p (refl, refl)
    | inl (fn_id, p) ↦ elim (Result-cases ((Functions.get_by_id e.postgres fn_id w.db).0)) [
      | inr (cause, f) ↦ rw (p, f) (refl, refl)
      | inl (fn, f) ↦
          elim (Result-cases (
            (Versions.latest_version_number e.postgres fn_id
              (Functions.get_by_id e.postgres fn_id w.db).1).0)) [
                | inr (cause, l) ↦ rw (p, f, l) (refl, refl)
                | inl (last, l) ↦
                    elim (Result-cases (
                      (Versions.create e.postgres
                        (queued_version (e.uuids.created w.drawn) fn_id last)
                        (Versions.latest_version_number e.postgres fn_id
                          (Functions.get_by_id e.postgres fn_id w.db).1).1).0)) [
                            | inr (cause, v) ↦ rw (p, f, l, v) (refl, refl)
                            | inl (done, v) ↦ rw (p, f, l, v) (refl, refl)
                          ]
              ]
    ]
  ]

  create_for-Untouched :
      (user_id : String) (input : FunctionInput) (w : World e)
      → Untouched w (FunctionHandler.create_for e user_id input w).1
  unfolding FunctionHandler.create_for
  create_for-Untouched user_id input w = elim (Result-cases (e.uuids.parse user_id)) [
    | inr (cause, p) ↦ rw p (refl, refl)
    | inl (uid, p) ↦
        elim (Result-cases (
          (Functions.create e.postgres (new_function (e.uuids.created w.drawn) uid input)
            w.db).0)) [
              | inr (cause, f) ↦ rw (p, f) (refl, refl)
              | inl (done, f) ↦ rw (p, f) (refl, refl)
            ]
  ]

  pub create-Untouched :
      (bind : String → Result FunctionInput) (c : Context) (w : World e)
      → Untouched w (FunctionHandler.create e bind c w).1
  unfolding FunctionHandler.create
  create-Untouched bind c w = elim (Result-cases (bind c.request.body)) [
    | inr (cause, b) ↦ rw b (refl, refl)
    | inl (input, b) ↦ elim (Option-cases c.user_id) [
      | inl missing ↦ rw (b, missing) (refl, refl)
      | inr (user_id, set) ↦ rw (b, set) (create_for-Untouched user_id input w)
    ]
  ]

  pub list-Untouched : (c : Context) (w : World e) → Untouched w (FunctionHandler.list e c w).1
  unfolding FunctionHandler.list
  list-Untouched c w = elim (Option-cases c.user_id) [
    | inl missing ↦ rw missing (refl, refl)
    | inr (user_id, set) ↦
        elim (Result-cases
          (Functions.list_by_user_id e.postgres (parsed_id e.uuids user_id) w.db).0) [
            | inr (cause, f) ↦ rw (set, f) (refl, refl)
            | inl (fns, f) ↦ rw (set, f) (refl, refl)
          ]
  ]

  switch_to-Untouched :
      (now : Value) (fn_id : Uuid) (found : Option FunctionVersion) (w : World e)
      → Untouched w (FunctionHandler.switch_to e now fn_id found w).1
  unfolding FunctionHandler.switch_to
  switch_to-Untouched now fn_id none w = (refl, refl)
  switch_to-Untouched now fn_id (some target) w = elim (Bool-cases (str_eq target.status "READY")) [
    | inr other ↦ rw other (refl, refl)
    | inl ready ↦
        elim (Result-cases
          (Functions.update_active_version e.postgres now fn_id target.id w.db).0) [
            | inr (cause, u) ↦ rw (ready, u) (refl, refl)
            | inl (done, u) ↦ rw (ready, u) (refl, refl)
          ]
  ]

  pub rollback-Untouched :
      (now : Value) (c : Context) (w : World e) → Untouched w (FunctionHandler.rollback e now c w).1
  unfolding FunctionHandler.rollback
  rollback-Untouched now c w = elim (Result-cases (e.uuids.parse (c.param "id"))) [
    | inr (cause, p) ↦ rw p (refl, refl)
    | inl (fn_id, p) ↦ elim (Result-cases (atoi (c.param "version"))) [
      | inr (cause, a) ↦ rw (p, a) (refl, refl)
      | inl (n, a) ↦ elim (Result-cases (Versions.list_by_function_id e.postgres fn_id w.db).0) [
        | inr (cause, l) ↦ rw (p, a, l) (refl, refl)
        | inl (vs, l) ↦ rw (p, a, l) (switch_to-Untouched now fn_id (find_version n vs) _)
      ]
    ]
  ]
