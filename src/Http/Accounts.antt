-- ===== src/Http/Accounts.antt =====
-- internal/http/handler/auth_handler.go: AuthHandler.
use nimbus_run_a_self_hosted.Prelude.{ℕ, ◌*◌, String, List, [], ◌∷◌}
use nimbus_run_a_self_hosted.Prelude.Exec.{Result, Exec, pure, raise, lift, ◌>>=◌}
use nimbus_run_a_self_hosted.Prelude.Int.{pos}
use nimbus_run_a_self_hosted.Platform.Data.{Uuid, Time}
use nimbus_run_a_self_hosted.Platform.Postgres.{Postgres, Value, text, uuid, insert, by_key}
use nimbus_run_a_self_hosted.Platform.Gin.{
  Body, string, integer, identifier, object, Response, Context, error_reply, or_reply,
}
use nimbus_run_a_self_hosted.Queue.Stream.{error_text}
use nimbus_run_a_self_hosted.Repository.Rows.{wrong_count, scan_first, scanning}
use nimbus_run_a_self_hosted.Env.{Env, World, on_db, draw_id}
use nimbus_run_a_self_hosted.Auth.{Jwt, Service, issue_tokens}
use nimbus_run_a_self_hosted.Auth.Keys.{Secrets, hash_password, verify_password, generate_api_key}
use nimbus_run_a_self_hosted.Http.{reply}

-- The body of both requests.
pub record Credentials : Type 0 where
  pub email : String
  pub password : String

-- What `Login` scans of a row of `users`.
pub record Account : Type 0 where
  pub user_id : Uuid
  pub email : String
  pub password_hash : String
  pub api_key : String

abbrev pub insert_columns : List String
insert_columns = "id" ∷ "email" ∷ "password_hash" ∷ "api_key" ∷ []

abbrev pub values_of : Account → List Value
values_of a = uuid a.user_id ∷ text a.email ∷ text a.password_hash ∷ text a.api_key ∷ []

-- `expires_in` is the handler's `jwtTTL` of 24 hours, in seconds.
unfoldable pub session_body : Account → String × String → Body
session_body a tokens = object (
    ("user_id", identifier a.user_id)
    ∷ ("email", string a.email)
    ∷ ("access_token", string tokens.0)
    ∷ ("refresh_token", string tokens.1)
    ∷ ("api_key", string a.api_key)
    ∷ ("token_type", string "bearer")
    ∷ ("expires_in", integer (pos (24 * 3600)))
    ∷ [])

module _ (p : Postgres) where
  unfoldable pub insert_account : Account → Exec p.State (Unit {0})
  insert_account a = p.exec (insert "users" insert_columns (values_of a))

  unfoldable pub scan_account : List Value → Exec (Unit {0}) Account
  scan_account (a ∷ b ∷ c ∷ d ∷ []) = do
    user_id ← lift (p.scan_uuid a)
    email ← lift (p.scan_text b)
    password_hash ← lift (p.scan_text c)
    api_key ← lift (p.scan_text d)
    pure (record {
      user_id = user_id;
      email = email;
      password_hash = password_hash;
      api_key = api_key;
    })
  scan_account _ = raise wrong_count

  unfoldable pub find_account : String → Exec p.State Account
  unfolding scan_account
  find_account email = do
    found ← p.query (by_key insert_columns "users" "email" (text email))
    scanning (scan_first scan_account found)

-- `now` is the clock's reading, and the draws are the random bytes of the hash and of the key.
-- `bind` is `c.ShouldBindJSON` of the request's body.
module _ (e : Env) (j : Jwt) (s : Service) (secrets : Secrets) where
  unfoldable pub start_session : Time → Account → Exec (World e) Response
  start_session now a =
      or_reply (lift (issue_tokens j e.uuids s now a.user_id))
        (λ _. error_reply 500 "failed to issue tokens") λ tokens. reply 200 (session_body a tokens)

  -- `Register` once the password is hashed and the key is generated.
  unfoldable pub open_account : Time → String → String → String → Exec (World e) Response
  open_account now email hashed_pwd api_key = do
    user_id ← draw_id e
    or_reply
        (on_db e (
          insert_account e.postgres (record {
            user_id = user_id;
            email = email;
            password_hash = hashed_pwd;
            api_key = api_key;
          })))
        (λ _. error_reply 500 "failed to create user")
        λ _. start_session now (record {
          user_id = user_id;
          email = email;
          password_hash = hashed_pwd;
          api_key = api_key;
        })

  unfoldable pub register :
      (String → Result Credentials) → Time → ℕ → ℕ → Context → Exec (World e) Response
  register bind now hash_draw key_draw c =
      or_reply (lift (bind c.request.body)) (λ cause. error_reply 400 (error_text cause))
        λ input.
          or_reply (lift (hash_password secrets hash_draw input.password))
            (λ _. error_reply 500 "failed to hash password")
            λ hashed_pwd.
              or_reply (lift (generate_api_key secrets key_draw))
                (λ _. error_reply 500 "failed to generate API key")
                λ api_key. open_account now input.email hashed_pwd api_key

  unfoldable pub login : (String → Result Credentials) → Time → Context → Exec (World e) Response
  login bind now c =
      or_reply (lift (bind c.request.body)) (λ cause. error_reply 400 (error_text cause))
        λ input.
          or_reply (on_db e (find_account e.postgres input.email))
            (λ _. error_reply 401 "invalid credentials")
            λ a.
              or_reply (lift (verify_password secrets a.password_hash input.password))
                (λ _. error_reply 401 "invalid credentials") λ _. start_session now a
