-- ===== src/Http/Access.antt =====
-- internal/http/server.go and middleware/auth.go: who gets past the group's middleware.
use nimbus_run_a_self_hosted.Prelude.{
  String, ◌≡◌, refl, sym, ap, ◌∙◌, ◌≢◌, ◌⊎◌, inl, inr, true, not, ◌||◌, none, some, List, ◌∷◌, All,
  arith, eq_iff, str_eq, Option-cases, Bool-cases,
}
use nimbus_run_a_self_hosted.Prelude.Members.{All-In}
use nimbus_run_a_self_hosted.Prelude.Text.{split_once, spaced, split_once_append}
use nimbus_run_a_self_hosted.Prelude.Exec.{ok, Result-cases}
use nimbus_run_a_self_hosted.Platform.Data.{Uuid, UuidLib}
use nimbus_run_a_self_hosted.Platform.Gin.{Route, matches, Gin, IsGin, Request, Response}
use nimbus_run_a_self_hosted.Env.{Env, World}
use nimbus_run_a_self_hosted.Auth.{Jwt, Service, validate_token, validate_access_token}
use nimbus_run_a_self_hosted.Auth.Tokens.{validate_access_token_iff}
use nimbus_run_a_self_hosted.Auth.Keys.{Secrets}
use nimbus_run_a_self_hosted.Http.Middleware.{Gate, abort, next, auth_middleware}
use nimbus_run_a_self_hosted.Http.Routes.{
  Endpoint, routes, protected, public, Inputs, dispatch, serve,
}

-- Whether a gate stops the request with the status 401.
abbrev Refuses : Gate → Type 0
Refuses (abort response) = response.status ≡ 401
Refuses (next user_id) = ⊥

refusal :
    (gate : Gate)
    → Refuses gate
    → (response : Response) × (gate ≡ abort response) × (response.status ≡ 401)
refusal (abort response) h = (response, refl, h)
refusal (next user_id) h = absurd h

module _ (j : Jwt) (u : UuidLib) (s : Service) where
  -- No access token follows the scheme.
  abbrev pub Unknown : String → Type 0
  Unknown header =
      (t : String) (uid : Uuid)
      → header ≡ spaced "Bearer" t
      → validate_access_token j u s t ≢ ok uid

  auth_middleware-Refuses :
      (header : String → String)
      → Unknown (header "Authorization")
      → Refuses (auth_middleware j u s header)
  unfolding auth_middleware
  auth_middleware-Refuses header unknown = elim (Bool-cases (str_eq (header "Authorization") "")) [
    | inl missing ↦ rw missing refl
    | inr there ↦ elim (Option-cases (split_once (header "Authorization"))) [
      | inl whole ↦ rw (there, whole) refl
      | inr ((scheme, token), parts) ↦ elim (Bool-cases (str_eq scheme "Bearer")) [
        | inr other ↦ rw (there, parts, other) refl
        | inl bearer ↦ elim (Result-cases (validate_token j u s token)) [
          | inr (cause, invalid) ↦ rw (there, parts, bearer, invalid) refl
          | inl ((uid, kind), valid) ↦ elim (Bool-cases (str_eq kind "access")) [
            | inr refresh ↦ rw (there, parts, bearer, valid, refresh) refl
            | inl access ↦ absurd (
                unknown token uid
                  (split_once_append (header "Authorization") scheme token parts
                    ∙ ap (λ scheme'. spaced scheme' token) ((eq_iff scheme "Bearer").0 bearer))
                  ((validate_access_token_iff j u s token uid).1
                    (valid ∙ ap (λ kind'. ok (uid, kind')) ((eq_iff kind "access").0 access))))
          ]
        ]
      ]
    ]
  ]

-- What is not behind the middleware is not under `/functions`.
abbrev Guards : List String → Route Endpoint → Type 0
Guards rest r = (r.guarded || not (matches r.pattern ("functions" ∷ rest))) ≡ true

routes_guard : (rest : List String) → All (Guards rest) routes
unfolding routes protected public matches
routes_guard rest = ground arith

module _ (e : Env) (j : Jwt) (s : Service) (secrets : Secrets) (inputs : Inputs) (g : Gin Endpoint)
    (laws : IsGin g) where
  -- The status is 401, or there is no route and gin itself replies: 404, or a redirection.
  abbrev pub Repelled : Request → Response → Type 0
  Repelled r response =
      (response.status ≡ 401)
      ⊎ ((g.find routes r ≡ none)
          × ((response.status ≡ 404) ⊎ ((response.status ≡ 301) ⊎ (response.status ≡ 307))))

  guarded_found :
      (r : Request) (rest : List String) (found : Route Endpoint) (ps : String → String)
      → r.path ≡ "functions" ∷ rest
      → g.find routes r ≡ some (found, ps)
      → found.guarded ≡ true
  guarded_found r rest found ps under chosen = ground (
    arith,
    All-In (Guards rest) found routes (routes_guard rest) (laws.find_mem routes r found ps chosen),
    ap (matches found.pattern) (sym under) ∙ laws.find_matches routes r found ps chosen,
  )

  -- If the path of a request begins with `functions`, and its `Authorization` header is not `Bearer`
  -- and a token that `ValidateAccessToken` accepts for some user, then the server changes nothing,
  -- and replies 401; where there is no such route, it replies 404, or 301 or 307 to redirect.
  pub serve_unauthorized :
      (r : Request) (rest : List String) (w : World e)
      → r.path ≡ "functions" ∷ rest
      → ((t : String) (uid : Uuid)
          → r.header "Authorization" ≡ spaced "Bearer" t
          → validate_access_token j e.uuids s t ≢ ok uid)
      → ((response : Response) × (serve e j s secrets inputs g r w ≡ (ok response, w))
          × Repelled r response)
  unfolding serve dispatch
  serve_unauthorized r rest w under unknown = elim (Option-cases (g.find routes r)) [
    | inl missing ↦
        (g.unrouted routes r, rw missing refl, inr (missing, laws.unrouted_status routes r))
    | inr ((found, ps), chosen) ↦
        let guarded = guarded_found r rest found ps under chosen in
        let (response, gate, status) =
          refusal _ (auth_middleware-Refuses j e.uuids s r.header unknown) in
        (response, rw (chosen, guarded, gate) refl, inl status)
  ]
