-- ===== src/Cli/Credentials.antt =====
-- cmd/cli/main.go and internal/http/middleware/auth.go: the credentials of a command at the gateway.
use Prim.Native.String.{[] as end, ◌∷◌ as char_cons}
use nimbus_run_a_self_hosted.Prelude.{
  String, ◌≡◌, refl, sym, ap, ◌∙◌, inl, inr, Bool, true, false, none, some, List, ◌∷◌, arith,
  str_eq, lookup, Bool-cases,
}
use nimbus_run_a_self_hosted.Prelude.Text.{spaced}
use nimbus_run_a_self_hosted.Prelude.Exec.{ok}
use nimbus_run_a_self_hosted.Platform.Gin.{Gin, IsGin, Request, Response}
use nimbus_run_a_self_hosted.Env.{Env, World}
use nimbus_run_a_self_hosted.Auth.{Jwt, Service}
use nimbus_run_a_self_hosted.Auth.Keys.{Secrets}
use nimbus_run_a_self_hosted.Http.Routes.{Endpoint, Inputs, serve}
use nimbus_run_a_self_hosted.Http.Access.{Repelled, serve_unauthorized}
use nimbus_run_a_self_hosted.Cli.{Flags, Outgoing, credential_headers, rollback_request}

-- What the server reads of a request's headers.
abbrev pub received : Outgoing → String → String
received out name = elim (lookup name out.headers) [ none ↦ "" | some value ↦ value ]

no_bearer :
    (flags : Flags) (fn_name version : String)
    → flags.bearer ≡ ""
    → received (rollback_request flags fn_name version) "Authorization" ≡ ""
unfolding rollback_request credential_headers lookup
no_bearer flags fn_name version e = elim (Bool-cases (str_eq flags.api_key "")) [
  | inl without ↦ rw (e, without) refl
  | inr given ↦ rw (e, given) refl
]

abbrev is_end : String → Bool
is_end end = true
is_end (char_cons c s) = false

bearer_has_text : (t : String) → "" ≡ spaced "Bearer" t → ⊥
bearer_has_text t e = ground (arith, ap is_end e)

module _ (e : Env) (j : Jwt) (s : Service) (secrets : Secrets) (inputs : Inputs) (g : Gin Endpoint)
    (laws : IsGin g) where
  -- A `rollback` command that has no token, with an API key or without, changes nothing: if the
  -- gateway receives its headers on a path that begins with `functions`, it replies 401, or, where it has
  -- no such route, 404, or 301 or 307 to redirect.
  pub rollback_refused :
      (flags : Flags) (fn_name version : String) (r : Request) (rest : List String) (w : World e)
      → flags.bearer ≡ ""
      → r.header "Authorization" ≡ received (rollback_request flags fn_name version) "Authorization"
      → r.path ≡ "functions" ∷ rest
      → (response : Response) × (serve e j s secrets inputs g r w ≡ (ok response, w))
        × Repelled e j s secrets inputs g laws r response
  rollback_refused flags fn_name version r rest w no_token sent under =
      serve_unauthorized e j s secrets inputs g laws r rest w under λ t uid header.
        absurd (bearer_has_text t (sym (sent ∙ no_bearer flags fn_name version no_token) ∙ header))
