-- ===== src/Http/Offline.antt =====
-- internal/http: the gateway works on the database alone.
pub mod Functions
pub mod Invocations
use nimbus_run_a_self_hosted.Prelude.{
  ℕ, String, ◌≡◌, refl, ◌∙◌, inl, inr, Bool, not, true, false, Option, none, some, Option-cases,
  Bool-cases, ◌==◌, str_eq, if◌then◌else◌,
}
use nimbus_run_a_self_hosted.Prelude.Text.{atoi}
use nimbus_run_a_self_hosted.Prelude.Exec.{Result, ok, err, Exec, Result-cases}
use nimbus_run_a_self_hosted.Platform.Data.{Uuid, Time, nil_uuid}
use nimbus_run_a_self_hosted.Platform.Postgres.{Value}
use nimbus_run_a_self_hosted.Platform.Gin.{Route, Gin, Request, Context, Response}
use nimbus_run_a_self_hosted.Models.{Function, FunctionVersion, Invocation}
use nimbus_run_a_self_hosted.Env.{Env, World, Untouched, parsed_id}
use nimbus_run_a_self_hosted.Auth.{Jwt, Service, issue_tokens}
use nimbus_run_a_self_hosted.Auth.Keys.{Secrets, hash_password, verify_password, generate_api_key}
use nimbus_run_a_self_hosted.Http.Middleware.{Gate, abort, next, auth_middleware}
use nimbus_run_a_self_hosted.Http.Functions.{
  FunctionInput, new_function, queued_version, find_version, listing_limit,
}
use nimbus_run_a_self_hosted.Http.Invocations as InvocationHandler
use nimbus_run_a_self_hosted.Http.Offline.Functions.{
  get-Untouched, delete-Untouched, list_versions-Untouched, deploy-Untouched, create-Untouched,
  list-Untouched, rollback-Untouched,
}
use nimbus_run_a_self_hosted.Http.Offline.Invocations.{list_by_function-Untouched, invoke-Untouched}
use nimbus_run_a_self_hosted.Http.Accounts.{Account, Credentials, find_account, insert_account}
use nimbus_run_a_self_hosted.Http.Accounts
use nimbus_run_a_self_hosted.Http.Routes.{
  Endpoint, health, register, login, list, create, get, delete, deploy, list_versions, rollback,
  list_by_function, invoke, get_logs, Inputs, handle, behind, dispatch, serve, routes,
}

module _ (e : Env) (j : Jwt) (s : Service) (secrets : Secrets) where
  start_session-Untouched :
      (now : Time) (a : Account) (w : World e)
      → Untouched w (Accounts.start_session e j s secrets now a w).1
  unfolding Accounts.start_session
  start_session-Untouched now a w = elim (Result-cases (issue_tokens j e.uuids s now a.user_id)) [
    | inr (cause, p) ↦ rw p (refl, refl)
    | inl (tokens, p) ↦ rw p (refl, refl)
  ]

  open_account-Untouched :
      (now : Time) (email hashed_pwd api_key : String) (w : World e)
      → Untouched w (Accounts.open_account e j s secrets now email hashed_pwd api_key w).1
  unfolding Accounts.open_account
  open_account-Untouched now email hashed_pwd api_key w =
      let a : Account = record {
        user_id = e.uuids.created w.drawn;
        email = email;
        password_hash = hashed_pwd;
        api_key = api_key;
      } in
      elim (Result-cases (insert_account e.postgres a w.db).0) [
        | inr (cause, f) ↦ rw f (refl, refl)
        | inl (done, f) ↦ rw f (start_session-Untouched now a _)
      ]

  register-Untouched :
      (bind : String → Result Credentials) (now : Time) (hash_draw key_draw : ℕ) (c : Context)
      (w : World e)
      → Untouched w (Accounts.register e j s secrets bind now hash_draw key_draw c w).1
  unfolding Accounts.register
  register-Untouched bind now hash_draw key_draw c w = elim (Result-cases (bind c.request.body)) [
    | inr (cause, b) ↦ rw b (refl, refl)
    | inl (input, b) ↦ elim (Result-cases (hash_password secrets hash_draw input.password)) [
      | inr (cause, h) ↦ rw (b, h) (refl, refl)
      | inl (hashed, h) ↦ elim (Result-cases (generate_api_key secrets key_draw)) [
        | inr (cause, k) ↦ rw (b, h, k) (refl, refl)
        | inl (key, k) ↦ rw (b, h, k) (open_account-Untouched now input.email hashed key w)
      ]
    ]
  ]

  login-Untouched :
      (bind : String → Result Credentials) (now : Time) (c : Context) (w : World e)
      → Untouched w (Accounts.login e j s secrets bind now c w).1
  unfolding Accounts.login
  login-Untouched bind now c w = elim (Result-cases (bind c.request.body)) [
    | inr (cause, b) ↦ rw b (refl, refl)
    | inl (input, b) ↦ elim (Result-cases (find_account e.postgres input.email w.db).0) [
      | inr (cause, f) ↦ rw (b, f) (refl, refl)
      | inl (a, f) ↦ elim (Result-cases (verify_password secrets a.password_hash input.password)) [
        | inr (cause, v) ↦ rw (b, f, v) (refl, refl)
        | inl (fits, v) ↦ rw (b, f, v) (start_session-Untouched now a _)
      ]
    ]
  ]

  module _ (inputs : Inputs) where
    handle-Untouched :
        (endpoint : Endpoint) (c : Context) (w : World e)
        → Untouched w (handle e j s secrets inputs endpoint c w).1
    unfolding handle InvocationHandler.get_logs
    handle-Untouched health c w = (refl, refl)
    handle-Untouched register c w = register-Untouched _ _ _ _ c w
    handle-Untouched login c w = login-Untouched _ _ c w
    handle-Untouched list c w = list-Untouched e c w
    handle-Untouched create c w = create-Untouched e _ c w
    handle-Untouched get c w = get-Untouched e c w
    handle-Untouched delete c w = delete-Untouched e c w
    handle-Untouched deploy c w = deploy-Untouched e c w
    handle-Untouched list_versions c w = list_versions-Untouched e c w
    handle-Untouched rollback c w = rollback-Untouched e _ c w
    handle-Untouched list_by_function c w = list_by_function-Untouched e c w
    handle-Untouched invoke c w = invoke-Untouched e c w
    handle-Untouched get_logs c w = (refl, refl)

    dispatch-Untouched :
        (r : Request) (found : Route Endpoint) (ps : String → String) (gate : Gate) (w : World e)
        → Untouched w
            (behind e j s secrets inputs gate
              (λ user_id.
                handle e j s secrets inputs found.endpoint
                  (record { request = r; param = ps; user_id = user_id }))
              w).1
    dispatch-Untouched r found ps (abort response) w = (refl, refl)
    dispatch-Untouched r found ps (next user_id) w = handle-Untouched found.endpoint _ w

    -- The server answers every request, and no request changes Redis or the pending timers: what a
    -- reply of the gateway calls queued has been put into no stream.
    pub serve_offline :
        (g : Gin Endpoint) (r : Request) (w : World e)
        → (response : Response) × ((serve e j s secrets inputs g r w).0 ≡ ok response)
          × ((serve e j s secrets inputs g r w).1.redis ≡ w.redis)
          × ((serve e j s secrets inputs g r w).1.timers ≡ w.timers)
    unfolding serve dispatch
    serve_offline g r w = elim (Option-cases (g.find routes r)) [
      | inl missing ↦ (g.unrouted routes r, rw missing refl, rw missing refl, rw missing refl)
      | inr ((found, ps), chosen) ↦
          let gate = if found.guarded then auth_middleware j e.uuids s r.header else next none in
          let kept = dispatch-Untouched r found ps gate w in
          elim (Result-cases (dispatch e j s secrets inputs r found ps w).0) [
            | inl (response, d) ↦
                (response, rw (chosen, d) refl, rw (chosen, d) kept.0, rw (chosen, d) kept.1)
            | inr (cause, d) ↦
                (g.recovered, rw (chosen, d) refl, rw (chosen, d) kept.0, rw (chosen, d) kept.1)
          ]
    ]
