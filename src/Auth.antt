-- ===== src/Auth.antt =====
-- internal/auth/auth.go: issuing tokens and checking them. The JWT library is a parameter.
pub mod Tokens
pub mod Keys
use nimbus_run_a_self_hosted.Prelude.{
  ℕ, ◌*◌, String, ◌≡◌, Bool, true, false, not, Option, none, some, List, [], ◌∷◌, if◌then◌else◌,
  lookup, str_eq,
}
use nimbus_run_a_self_hosted.Prelude.Exec.{Error, errorf, wrapped, Result, ok, err}
use nimbus_run_a_self_hosted.Prelude.Int.{ℤ, pos, ◌+ℤ◌}
use nimbus_run_a_self_hosted.Platform.Data.{Uuid, nil_uuid, UuidLib, Time, second, unix}

-- What a claim holds: a text, or a number.
pub data Claim : Type 0 where
  text : String → Claim
  number : ℤ → Claim

-- `jwt.MapClaims`
abbrev pub Claims : Type 0
Claims = List (String × Claim)

-- `jwt.Token` after parsing; `claims` is `none` where they are no MapClaims.
pub record Token : Type 0 where
  pub valid : Bool
  pub claims : Option Claims

-- golang-jwt. `parse` asks for the key, telling whether the method is HMAC. `live` tells whether the
-- times in the claims admit the token at the time of the check.
pub record Jwt : Type 0 where
  pub parse : (Bool → Result String) → String → Result Token
  pub sign : Claims → String → Result String
  pub live : Claims → Bool

-- A token that was signed with a key parses with that key while it is live.
pub record IsJwt (j : Jwt) : Type 0 where
  pub parse-sign :
      (key : Bool → Result String) (secret t : String) (claims : Claims)
      → j.sign claims secret ≡ ok t
      → key true ≡ ok secret
      → j.live claims ≡ true
      → j.parse key t ≡ ok (record { valid = true; claims = some claims })

pub record Service : Type 0 where
  pub jwt_secret : String
  pub token_ttl : ℤ

unfoldable pub key_func : Service → Bool → Result String
key_func s hmac = if hmac then ok s.jwt_secret else err (errorf "unexpected signing method")

-- `s, _ := claims[k].(string)`
unfoldable pub text_claim : String → Claims → String
text_claim k claims = elim (lookup k claims) [
  | none ↦ ""
  | some claim ↦ elim claim [ text s ↦ s | number n ↦ "" ]
]

unfoldable pub access_claims : Service → UuidLib → Time → Uuid → Claims
access_claims s u now user_id =
    ("sub", text (u.format user_id))
    ∷ ("exp", number (unix (now +ℤ s.token_ttl)))
    ∷ ("iat", number (unix now))
    ∷ ("type", text "access")
    ∷ []

unfoldable pub refresh_claims : UuidLib → Time → Uuid → Claims
refresh_claims u now user_id =
    ("sub", text (u.format user_id))
    ∷ ("exp", number (unix (now +ℤ pos (7 * 24 * 3600 * second))))
    ∷ ("iat", number (unix now))
    ∷ ("type", text "refresh")
    ∷ []

module _ (j : Jwt) (u : UuidLib) (s : Service) where
  unfoldable pub validate_token : String → Result (Uuid × String)
  unfolding key_func text_claim
  validate_token token_str = elim (j.parse (key_func s) token_str) [
    | err e ↦ err e
    | ok token ↦ if not token.valid then err (errorf "invalid token") else elim token.claims [
      | none ↦ err (errorf "invalid claims")
      | some claims ↦ elim (u.parse (text_claim "sub" claims)) [
        | err e ↦ err (wrapped "invalid subject" e)
        | ok uid ↦ ok (uid, text_claim "type" claims)
      ]
    ]
  ]

  unfoldable pub validate_access_token : String → Result Uuid
  unfolding key_func text_claim
  validate_access_token token_str = elim (j.parse (key_func s) token_str) [
    | err e ↦ err e
    | ok token ↦ elim token.claims [
      | none ↦ err (errorf "invalid token")
      | some claims ↦
          if not token.valid
          then err (errorf "invalid token")
          else if str_eq (text_claim "type" claims) "access"
          then u.parse (text_claim "sub" claims)
          else err (errorf "token is not an access token")
    ]
  ]

  -- The clock is read twice for each token; one reading stands for both.
  unfoldable pub issue_tokens : Time → Uuid → Result (String × String)
  unfolding access_claims refresh_claims
  issue_tokens now user_id = elim (j.sign (access_claims s u now user_id) s.jwt_secret) [
    | err e ↦ err (wrapped "signing access token" e)
    | ok access ↦ elim (j.sign (refresh_claims u now user_id) s.jwt_secret) [
      | err e ↦ err (wrapped "signing refresh token" e)
      | ok refresh ↦ ok (access, refresh)
    ]
  ]
