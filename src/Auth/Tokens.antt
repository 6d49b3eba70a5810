-- ===== src/Auth/Tokens.antt =====
-- internal/auth/auth.go: which tokens are accepted.
use nimbus_run_a_self_hosted.Prelude.{
  String, ◌≡◌, ◌↔◌, refl, inl, inr, true, arith, eq_iff, lookup, Option-cases,
}
use nimbus_run_a_self_hosted.Prelude.Exec.{errorf, ok, err, Result-cases}
use nimbus_run_a_self_hosted.Platform.Data.{Uuid, UuidLib, IsUuidLib, Time}
use nimbus_run_a_self_hosted.Auth.{
  Jwt, IsJwt, Service, key_func, text_claim, access_claims, refresh_claims, validate_token,
  validate_access_token, issue_tokens,
}

module _ (j : Jwt) (u : UuidLib) (s : Service) where
  -- `ValidateAccessToken` accepts a token for a user exactly when `ValidateToken` returns that user
  -- with the type "access", although the two test in different orders.
  pub validate_access_token_iff :
      (t : String) (uid : Uuid)
      → (validate_access_token j u s t ≡ ok uid) ↔ (validate_token j u s t ≡ ok (uid, "access"))
  unfolding validate_access_token validate_token
  validate_access_token_iff t uid = elim (Result-cases (j.parse (key_func s) t)) [
    | inr (cause, p) ↦ (λ e. ground (arith, p), λ e. ground (arith, p))
    | inl (token, p) ↦ elim (Option-cases token.claims) [
      | inl c ↦ (λ e. ground (arith, p, c), λ e. ground (arith, p, c))
      | inr (claims, c) ↦ elim (Result-cases (u.parse (text_claim "sub" claims))) [
        | inl (id, r) ↦ (
          λ e. ground (arith, p, c, r, eq_iff (text_claim "type" claims) "access"),
          λ e. ground (arith, p, c, r, eq_iff (text_claim "type" claims) "access"),
        )
        | inr (cause, r) ↦ (
          λ e. ground (arith, p, c, r, eq_iff (text_claim "type" claims) "access"),
          λ e. ground (arith, p, c, r, eq_iff (text_claim "type" claims) "access"),
        )
      ]
    ]
  ]

  -- If tokens are issued to a user, then, while they have not expired, the access token is accepted
  -- for that user, and the refresh token is refused as an access token.
  pub validate_access_token-issue_tokens :
      (laws : IsJwt j) (ids : IsUuidLib u) (now : Time) (user_id : Uuid) (access refresh : String)
      → issue_tokens j u s now user_id ≡ ok (access, refresh)
      → j.live (access_claims s u now user_id) ≡ true
      → j.live (refresh_claims u now user_id) ≡ true
      → (validate_access_token j u s access ≡ ok user_id)
        × (validate_access_token j u s refresh ≡ err (errorf "token is not an access token"))
  unfolding validate_access_token issue_tokens key_func text_claim access_claims refresh_claims
      lookup
  validate_access_token-issue_tokens laws ids now user_id access refresh issued live live' =
      elim (Result-cases (j.sign (access_claims s u now user_id) s.jwt_secret)) [
        | inr (cause, a) ↦ absurd (ground (arith, a))
        | inl (access', a) ↦
            elim (Result-cases (j.sign (refresh_claims u now user_id) s.jwt_secret)) [
              | inr (cause, r) ↦ absurd (ground (arith, a, r))
              | inl (refresh', r) ↦ ground (
                arith,
                a,
                r,
                ids.parse-format user_id,
                laws.parse-sign (key_func s) s.jwt_secret access' (access_claims s u now user_id) a
                    refl live,
                laws.parse-sign (key_func s) s.jwt_secret refresh' (refresh_claims u now user_id) r
                    refl live',
              )
            ]
      ]
