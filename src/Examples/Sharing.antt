-- ===== src/Examples/Sharing.antt =====
-- The deletion of a function by two users, one of whom owns it.
use nimbus_run_a_self_hosted.Prelude.{
  String, ◌≡◌, refl, true, some, [], ◌∷◌, str_eq, if◌then◌else◌, lookup,
}
use nimbus_run_a_self_hosted.Prelude.Exec.{Result, ok, err}
use nimbus_run_a_self_hosted.Prelude.Int.{pos}
use nimbus_run_a_self_hosted.Prelude.Text.{split_once}
use nimbus_run_a_self_hosted.Platform.Gin.{Route, literal, colon, matches, Request}
use nimbus_run_a_self_hosted.Auth.{Jwt, Token, access_claims, text_claim, validate_token}
use nimbus_run_a_self_hosted.Http.Middleware.{auth_middleware}
use nimbus_run_a_self_hosted.Http.Routes.{Endpoint, delete, routes, serve}
use nimbus_run_a_self_hosted.Http.Ownership.{serve_any_user}
use nimbus_run_a_self_hosted.Examples.Tables.{stroke_ids}
use nimbus_run_a_self_hosted.Examples.Samples.{env, shop}
use nimbus_run_a_self_hosted.Examples.Authenticating.{service}
use nimbus_run_a_self_hosted.Examples.Serving.{bound, linear, plain, inputs}

-- The token `owner` is that of user 1, and any other that of user 2.
abbrev parsed : String → Result String → Result Token
parsed t (err e) = err e
parsed t (ok secret) = ok (record {
  valid = true;
  claims = some (access_claims service stroke_ids (pos 0) (if str_eq t "owner" then 1 else 2));
})

abbrev two_users : Jwt
two_users = record {
  parse = λ key t. parsed t (key true);
  sign = λ claims secret. ok (text_claim "user_id" claims);
  live = λ claims. true;
}

abbrev headers : String → String → String
headers token name = if str_eq name "Authorization" then token else ""

-- `DELETE /functions/iii`
abbrev deletion : Request
deletion = record {
  method = "DELETE";
  path = "functions" ∷ "iii" ∷ [];
  header = headers "Bearer owner";
  query = λ name. "";
  body = "";
}

abbrev pattern_of : Route Endpoint
pattern_of = record {
  method = "DELETE";
  pattern = literal "functions" ∷ colon "id" ∷ [];
  guarded = true;
  endpoint = delete;
}

serve_any_user_example :
    serve env two_users service plain inputs linear
      (record deletion { header = headers "Bearer guest" })
      shop
    ≡ serve env two_users service plain inputs linear deletion shop
unfolding routes matches auth_middleware split_once validate_token lookup access_claims
serve_any_user_example =
    serve_any_user env two_users service plain inputs linear deletion (headers "Bearer guest")
      pattern_of (bound pattern_of.pattern deletion.path) "i" "ii" shop refl refl refl refl refl
