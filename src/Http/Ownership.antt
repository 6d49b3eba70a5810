-- ===== src/Http/Ownership.antt =====
-- internal/http/handler/function_handler.go: which handlers look at the user of the token.
use nimbus_run_a_self_hosted.Prelude.{
  String, ◌≡◌, refl, Bool, true, false, Bool-cases, inl, inr, Option, none, some, arith,
}
use nimbus_run_a_self_hosted.Platform.Gin.{Route, Gin, Request}
use nimbus_run_a_self_hosted.Env.{Env, World}
use nimbus_run_a_self_hosted.Auth.{Jwt, Service}
use nimbus_run_a_self_hosted.Auth.Keys.{Secrets}
use nimbus_run_a_self_hosted.Http.Middleware.{next, auth_middleware}
use nimbus_run_a_self_hosted.Http.Functions
use nimbus_run_a_self_hosted.Http.Invocations
use nimbus_run_a_self_hosted.Http.Routes.{
  Endpoint, health, register, login, list, create, get, delete, deploy, list_versions, rollback,
  list_by_function, invoke, get_logs, routes, Inputs, handle, dispatch, serve,
}

-- The endpoints that work on one function, which the path names.
abbrev pub on_one_function : Endpoint → Bool
on_one_function get = true
on_one_function delete = true
on_one_function deploy = true
on_one_function list_versions = true
on_one_function rollback = true
on_one_function list_by_function = true
on_one_function _ = false

module _ (e : Env) (j : Jwt) (s : Service) (secrets : Secrets) (inputs : Inputs) where
  handle_any_user :
      (endpoint : Endpoint) (r : Request) (header : String → String) (ps : String → String)
      (one other : Option String) (w : World e)
      → on_one_function endpoint ≡ true
      → handle e j s secrets inputs endpoint
          (record { request = record r { header = header }; param = ps; user_id = other })
          w
        ≡ handle e j s secrets inputs endpoint (record { request = r; param = ps; user_id = one }) w
  unfolding handle Functions.get Functions.delete Functions.deploy Functions.list_versions
      Functions.rollback Invocations.list_by_function
  handle_any_user get r header ps one other w shared = refl
  handle_any_user delete r header ps one other w shared = refl
  handle_any_user deploy r header ps one other w shared = refl
  handle_any_user list_versions r header ps one other w shared = refl
  handle_any_user rollback r header ps one other w shared = refl
  handle_any_user list_by_function r header ps one other w shared = refl
  handle_any_user health r header ps one other w shared = absurd (ground (arith, shared))
  handle_any_user register r header ps one other w shared = absurd (ground (arith, shared))
  handle_any_user login r header ps one other w shared = absurd (ground (arith, shared))
  handle_any_user list r header ps one other w shared = absurd (ground (arith, shared))
  handle_any_user create r header ps one other w shared = absurd (ground (arith, shared))
  handle_any_user invoke r header ps one other w shared = absurd (ground (arith, shared))
  handle_any_user get_logs r header ps one other w shared = absurd (ground (arith, shared))

  -- Two requests that differ only in their headers, which gin routes alike to an endpoint for one
  -- function (reading it, deleting it, deploying, its versions, rolling back, its invocations), and
  -- which the middleware lets pass for any two users, get the same reply and leave the same state:
  -- whoever owns the function, the user of the token makes no difference.
  pub serve_any_user :
      (g : Gin Endpoint) (r : Request) (header : String → String) (found : Route Endpoint)
      (ps : String → String) (one other : String) (w : World e)
      → g.find routes r ≡ some (found, ps)
      → g.find routes (record r { header = header }) ≡ some (found, ps)
      → on_one_function found.endpoint ≡ true
      → auth_middleware j e.uuids s r.header ≡ next (some one)
      → auth_middleware j e.uuids s header ≡ next (some other)
      → serve e j s secrets inputs g (record r { header = header }) w
        ≡ serve e j s secrets inputs g r w
  unfolding serve dispatch
  serve_any_user g r header found ps one other w chosen chosen' shared passed passed' =
      elim (Bool-cases found.guarded) [
        | inl guarded ↦
            rw (chosen, chosen', guarded, passed, passed')
              (rw (handle_any_user found.endpoint r header ps (some one) (some other) w shared)
                refl)
        | inr open_to_all ↦
            rw (chosen, chosen', open_to_all)
              (rw (handle_any_user found.endpoint r header ps none none w shared) refl)
      ]
