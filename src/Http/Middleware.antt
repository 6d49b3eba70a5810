-- ===== src/Http/Middleware.antt =====
-- internal/http/middleware/auth.go: what each middleware makes of a request's headers.
use Prim.Native.String.{◌++◌ as str_append}
use text.Mathlib.Text.{starts_with}
use nimbus_run_a_self_hosted.Prelude.{String, not, Option, none, some, str_eq, if◌then◌else◌}
use nimbus_run_a_self_hosted.Prelude.Text.{split_once}
use nimbus_run_a_self_hosted.Prelude.Exec.{Result, ok, err}
use nimbus_run_a_self_hosted.Platform.Data.{Uuid, UuidLib}
use nimbus_run_a_self_hosted.Platform.Gin.{Response, error_reply}
use nimbus_run_a_self_hosted.Queue.Stream.{error_text}
use nimbus_run_a_self_hosted.Auth.{Jwt, Service, validate_token}
use nimbus_run_a_self_hosted.Auth.Keys.{api_key_header, api_key_prefix}

-- `c.AbortWithStatusJSON`, or `c.Next` with the `user_id` that was set.
pub data Gate : Type 0 where
  abort : Response → Gate
  next : Option String → Gate

abbrev unauthorized : String → Gate
unauthorized message = abort (error_reply 401 message)

module _ (j : Jwt) (u : UuidLib) (s : Service) where
  -- A token that `ValidateToken` has looked at.
  abbrev pub admit : Result (Uuid × String) → Gate
  admit (err cause) = unauthorized (str_append "invalid token: " (error_text cause))
  admit (ok (user_id, token_type)) =
      if not (str_eq token_type "access")
      then unauthorized "not an access token"
      else next (some (u.format user_id))

  unfoldable pub auth_middleware : (String → String) → Gate
  auth_middleware header =
      if str_eq (header "Authorization") ""
      then unauthorized "missing authorization header"
      else elim (split_once (header "Authorization")) [
        | none ↦ unauthorized "invalid authorization format"
        | some (scheme, token) ↦
            if not (str_eq scheme "Bearer")
            then unauthorized "invalid authorization format"
            else admit (validate_token j u s token)
      ]

  abbrev identify : Result (Uuid × String) → Option String
  identify (err cause) = none
  identify (ok (user_id, token_type)) =
      if str_eq token_type "access" then some (u.format user_id) else none

  unfoldable pub optional_auth_middleware : (String → String) → Gate
  optional_auth_middleware header =
      if str_eq (header "Authorization") ""
      then next none
      else elim (split_once (header "Authorization")) [
        | none ↦ next none
        | some (scheme, token) ↦
            if not (str_eq scheme "Bearer")
            then next none
            else next (identify (validate_token j u s token))
      ]

unfoldable pub api_key_middleware : (String → String) → Gate
api_key_middleware header =
    if str_eq (header api_key_header) ""
    then unauthorized "missing API key"
    else if not (starts_with (header api_key_header) api_key_prefix)
    then unauthorized "invalid API key"
    else next none
