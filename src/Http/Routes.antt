-- ===== src/Http/Routes.antt =====
-- internal/http/server.go: the table of routes, and what the server makes of one request.
use nimbus_run_a_self_hosted.Prelude.{
  ℕ, String, Bool, true, false, Option, none, some, List, [], ◌∷◌, ◌++◌, if◌then◌else◌,
}
use nimbus_run_a_self_hosted.Prelude.Exec.{Result, ok, err, Exec, pure, attempt, ◌>>=◌}
use nimbus_run_a_self_hosted.Platform.Data.{Time}
use nimbus_run_a_self_hosted.Platform.Postgres.{Value}
use nimbus_run_a_self_hosted.Platform.Gin.{
  Piece, literal, colon, Route, Gin, Request, Response, Context, string, object,
}
use nimbus_run_a_self_hosted.Env.{Env, World}
use nimbus_run_a_self_hosted.Auth.{Jwt, Service}
use nimbus_run_a_self_hosted.Auth.Keys.{Secrets}
use nimbus_run_a_self_hosted.Http.{reply}
use nimbus_run_a_self_hosted.Http.Middleware.{Gate, abort, next, auth_middleware}
use nimbus_run_a_self_hosted.Http.Functions
use nimbus_run_a_self_hosted.Http.Functions.{FunctionInput}
use nimbus_run_a_self_hosted.Http.Invocations
use nimbus_run_a_self_hosted.Http.Accounts
use nimbus_run_a_self_hosted.Http.Accounts.{Credentials}

pub data Endpoint : Type 0 where
  health register login list create get delete deploy list_versions : Endpoint
  rollback list_by_function invoke get_logs : Endpoint

abbrev route : Bool → String → List Piece → Endpoint → Route Endpoint
route guarded method pattern endpoint = record {
  method = method;
  pattern = pattern;
  guarded = guarded;
  endpoint = endpoint;
}

abbrev functions : List Piece → List Piece
functions rest = literal "functions" ∷ rest

abbrev function_id : List Piece → List Piece
function_id rest = literal "functions" ∷ colon "id" ∷ rest

-- The group of `AuthMiddleware`.
unfoldable pub protected : List (Route Endpoint)
protected =
    route true "GET" (functions []) list
    ∷ route true "POST" (functions []) create
    ∷ route true "GET" (function_id []) get
    ∷ route true "DELETE" (function_id []) delete
    ∷ route true "POST" (function_id (literal "deploy" ∷ [])) deploy
    ∷ route true "GET" (function_id (literal "versions" ∷ [])) list_versions
    ∷ route true "POST" (function_id (literal "rollback" ∷ colon "version" ∷ [])) rollback
    ∷ route true "GET" (function_id (literal "invocations" ∷ [])) list_by_function
    ∷ []

unfoldable pub public : List (Route Endpoint)
public =
    route false "GET" (literal "health" ∷ []) health
    ∷ route false "POST" (literal "auth" ∷ literal "register" ∷ []) register
    ∷ route false "POST" (literal "auth" ∷ literal "login" ∷ []) login
    ∷ route false "POST" (literal "f" ∷ colon "id" ∷ []) invoke
    ∷ route false "GET"
        (literal "f" ∷ colon "id" ∷ literal "invocations" ∷ colon "inv_id" ∷ literal "logs" ∷ [])
        get_logs
    ∷ []

unfoldable pub routes : List (Route Endpoint)
unfolding protected public
routes = public ++ protected

-- What the handlers use beside the services, at the time of one request: the decoders of the
-- bodies, the clock, the server's NOW() and the random bytes.
pub record Inputs : Type 0 where
  pub bind_function : String → Result FunctionInput
  pub bind_credentials : String → Result Credentials
  pub now : Time
  pub server_now : Value
  pub hash_draw : ℕ
  pub key_draw : ℕ

module _ (e : Env) (j : Jwt) (s : Service) (secrets : Secrets) (inputs : Inputs) where
  unfoldable pub handle : Endpoint → Context → Exec (World e) Response
  handle health c = reply 200 (object (("status", string "healthy") ∷ []))
  handle register c =
      Accounts.register e j s secrets inputs.bind_credentials inputs.now inputs.hash_draw
        inputs.key_draw c
  handle login c = Accounts.login e j s secrets inputs.bind_credentials inputs.now c
  handle list c = Functions.list e c
  handle create c = Functions.create e inputs.bind_function c
  handle get c = Functions.get e c
  handle delete c = Functions.delete e c
  handle deploy c = Functions.deploy e c
  handle list_versions c = Functions.list_versions e c
  handle rollback c = Functions.rollback e inputs.server_now c
  handle list_by_function c = Invocations.list_by_function e c
  handle invoke c = Invocations.invoke e c
  handle get_logs c = Invocations.get_logs e c

  -- A handler behind its group's middleware.
  abbrev pub behind : Gate → (Option String → Exec (World e) Response) → Exec (World e) Response
  behind (abort response) handler = pure response
  behind (next user_id) handler = handler user_id

  -- `gin.Recovery`
  abbrev pub recover : Response → Result Response → Exec (World e) Response
  recover panicked_reply (ok response) = pure response
  recover panicked_reply (err cause) = pure panicked_reply

  unfoldable pub dispatch : Request → Route Endpoint → (String → String) → Exec (World e) Response
  dispatch r found ps =
      behind (if found.guarded then auth_middleware j e.uuids s r.header else next none)
        (λ user_id. handle found.endpoint (record { request = r; param = ps; user_id = user_id }))

  abbrev pub serve_route :
      Gin Endpoint → Request → Option (Route Endpoint × (String → String)) → Exec (World e) Response
  serve_route g r none = pure (g.unrouted routes r)
  serve_route g r (some (found, ps)) = do
    result ← attempt (dispatch r found ps)
    recover g.recovered result

  unfoldable pub serve : Gin Endpoint → Request → Exec (World e) Response
  serve g r = serve_route g r (g.find routes r)
