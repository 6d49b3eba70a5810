-- ===== src/Examples/Authenticating.antt =====
-- The properties of the token checks with a library that knows two tokens.
use nimbus_run_a_self_hosted.Prelude.{
  String, ◌≡◌, refl, inl, inr, ap, Bool, true, false, ◌&&◌, ◌||◌, some, [], ◌∷◌, arith, eq_iff,
  str_eq, lookup, if◌then◌else◌, Bool-cases,
}
use nimbus_run_a_self_hosted.Prelude.Exec.{errorf, Result, ok, err}
use nimbus_run_a_self_hosted.Prelude.Int.{pos, eqb_ℤ, eqb_ℤ_eq, ◌+ℤ◌}
use nimbus_run_a_self_hosted.Auth.{
  Claim, Claims, text, number, Jwt, IsJwt, Service, Token, text_claim, access_claims,
  refresh_claims, validate_access_token, issue_tokens,
}
use nimbus_run_a_self_hosted.Auth.Tokens.{validate_access_token-issue_tokens}
use nimbus_run_a_self_hosted.Examples.Tables.{stroke_ids, stroke_ids-IsUuidLib}

abbrev same_claim : Claim → Claim → Bool
same_claim (text a) (text b) = str_eq a b
same_claim (number a) (number b) = eqb_ℤ a b
same_claim _ _ = false

same_claim_eq : (a b : Claim) → same_claim a b ≡ true → a ≡ b
same_claim_eq (text a) (text b) e = ap text ((eq_iff a b).0 e)
same_claim_eq (number a) (number b) e = ap number (eqb_ℤ_eq a b e)
same_claim_eq (text a) (number b) e = ground (arith, e)
same_claim_eq (number a) (text b) e = ground (arith, e)

abbrev same_claims : Claims → Claims → Bool
same_claims [] [] = true
same_claims ((k, a) ∷ xs) ((j, b) ∷ ys) = str_eq k j && (same_claim a b && same_claims xs ys)
same_claims _ _ = false

same_claims_eq : (xs ys : Claims) → same_claims xs ys ≡ true → xs ≡ ys
same_claims_eq [] [] e = refl
same_claims_eq [] (b ∷ ys) e = ground (arith, e)
same_claims_eq (a ∷ xs) [] e = ground (arith, e)
same_claims_eq ((k, a) ∷ xs) ((j, b) ∷ ys) e =
    ground (arith, e, eq_iff k j, same_claim_eq a b, same_claims_eq xs ys)

abbrev pub service : Service
service = record { jwt_secret = "s3cret"; token_ttl = pos 0 }

abbrev access : Claims
access = access_claims service stroke_ids (pos 0) 1

abbrev refresh : Claims
refresh = refresh_claims stroke_ids (pos 0) 1

abbrev parsed : String → Result String → Result Token
parsed t (err e) = err e
parsed t (ok secret) =
    ok (record { valid = true; claims = some (if str_eq t "access" then access else refresh) })

abbrev pub two_tokens : Jwt
two_tokens = record {
  parse = λ key t. parsed t (key true);
  sign = λ claims secret. ok (text_claim "type" claims);
  live = λ claims. same_claims access claims || same_claims refresh claims;
}

two_tokens-IsJwt : IsJwt two_tokens
unfolding text_claim access_claims refresh_claims lookup
two_tokens-IsJwt = record {
  parse-sign = λ key secret t claims signed keyed live.
      elim (Bool-cases (same_claims access claims)) [
        | inl first ↦
            let same = same_claims_eq access claims first in
            ground (arith, keyed, signed, same, ap (text_claim "type") same, eq_iff t "access")
        | inr other ↦
            let second : same_claims refresh claims ≡ true = ground (arith, live, other) in
            let same = same_claims_eq refresh claims second in
            let named : "refresh" ≡ t = ground (arith, signed, same, ap (text_claim "type") same) in
            ground (arith, keyed, same, ap (λ v. str_eq v "access") named)
      ];
}

validate_access_token-issue_tokens_example :
    (validate_access_token two_tokens stroke_ids service "access" ≡ ok 1)
    × (validate_access_token two_tokens stroke_ids service "refresh"
        ≡ err (errorf "token is not an access token"))
unfolding issue_tokens text_claim access_claims refresh_claims lookup ◌+ℤ◌
validate_access_token-issue_tokens_example =
    validate_access_token-issue_tokens two_tokens stroke_ids service two_tokens-IsJwt
      stroke_ids-IsUuidLib (pos 0) 1 "access" "refresh" refl refl refl
