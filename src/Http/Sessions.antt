-- ===== src/Http/Sessions.antt =====
-- internal/http/handler/auth_handler.go: a user who has registered can log in.
use nimbus_run_a_self_hosted.Prelude.{
  ℕ, String, ◌≡◌, refl, sym, ap, ◌∙◌, inl, inr, List, [], select, arith, eq_iff, lookup,
}
use nimbus_run_a_self_hosted.Prelude.Exec.{Result, ok, Result-cases}
use nimbus_run_a_self_hosted.Platform.Data.{Time}
use nimbus_run_a_self_hosted.Platform.Postgres.{Value, text, by_key, has}
use nimbus_run_a_self_hosted.Platform.Gin.{Response, Context}
use nimbus_run_a_self_hosted.Repository.Rows.{scan_first}
use nimbus_run_a_self_hosted.Repository.RoundTrip.{found_new}
use nimbus_run_a_self_hosted.Env.{Env, IsEnv, World}
use nimbus_run_a_self_hosted.Auth.{Jwt, Service, issue_tokens}
use nimbus_run_a_self_hosted.Auth.Keys.{
  Secrets, IsSecrets, hash_password, verify_password, generate_api_key,
}
use nimbus_run_a_self_hosted.Http.Accounts.{
  Credentials, Account, insert_columns, values_of, insert_account, scan_account, find_account,
  session_body, start_session, open_account, register, login,
}

module _ (e : Env) (laws : IsEnv e) where
  -- An account whose address no row had is found under it once it is inserted.
  find_account-insert_account :
      (a : Account) (s : e.postgres.State) (found : List (List Value))
      → select (has "email" (text a.email)) (e.postgres.rows s "users") ≡ []
      → (insert_account e.postgres a s).0 ≡ ok tt
      → (e.postgres.query
          (by_key insert_columns "users" "email" (text a.email))
          (insert_account e.postgres a s).1).0
        ≡ ok found
      → (find_account e.postgres a.email (insert_account e.postgres a s).1).0 ≡ ok a
  unfolding insert_account find_account scan_account scan_first lookup
  find_account-insert_account a s found fresh done asked =
      let only =
        found_new e.postgres laws.postgres_laws s "users" "email" (text a.email) insert_columns
          insert_columns (values_of a) found fresh done (ground (arith, eq_iff a.email a.email))
          asked in
      rw
        (
          asked,
          only,
          laws.postgres_laws.scan_uuid_ok a.user_id,
          laws.postgres_laws.scan_text_ok a.email,
          laws.postgres_laws.scan_text_ok a.password_hash,
          laws.postgres_laws.scan_text_ok a.api_key,
        )
        refl

module _ (e : Env) (laws : IsEnv e) (j : Jwt) (s : Service) (secrets : Secrets) where
  -- What `Register` and a later `Login` have replied.
  pub record SamePerson (email : String) (first second : Result Response) : Type 0 where
    pub account : Account
    pub tokens : String × String
    pub tokens' : String × String
    pub address : account.email ≡ email
    pub registered : first ≡ ok (record { status = 200; body = session_body account tokens })
    pub logged_in : second ≡ ok (record { status = 200; body = session_body account tokens' })

  login_lem :
      (bind : String → Result Credentials) (now : Time) (c : Context) (w : World e)
      (input : Credentials) (a : Account) (tokens : String × String)
      → bind c.request.body ≡ ok input
      → (find_account e.postgres input.email w.db).0 ≡ ok a
      → verify_password secrets a.password_hash input.password ≡ ok tt
      → issue_tokens j e.uuids s now a.user_id ≡ ok tokens
      → (login e j s secrets bind now c w).0
        ≡ ok (record { status = 200; body = session_body a tokens })
  unfolding login start_session
  login_lem bind now c w input a tokens b known fits signed = rw (b, known, fits, signed) refl

  -- If nobody had the address, and `Register` has replied 200, then `Login` with the same address and
  -- password, if the query and the signing of the tokens succeed, replies 200 with the same user id,
  -- address and API key.
  pub login-register :
      (hashing : IsSecrets secrets) (bind : String → Result Credentials) (now now' : Time)
      (hash_draw key_draw : ℕ) (c c' : Context) (w : World e) (input : Credentials)
      (response : Response) (found : List (List Value)) (tokens' : String × String)
      → bind c.request.body ≡ ok input
      → bind c'.request.body ≡ ok input
      → select (has "email" (text input.email)) (e.postgres.rows w.db "users") ≡ []
      → (register e j s secrets bind now hash_draw key_draw c w).0 ≡ ok response
      → response.status ≡ 200
      → (e.postgres.query
          (by_key insert_columns "users" "email" (text input.email))
          (register e j s secrets bind now hash_draw key_draw c w).1.db).0
        ≡ ok found
      → issue_tokens j e.uuids s now' (e.uuids.created w.drawn) ≡ ok tokens'
      → SamePerson input.email
          (register e j s secrets bind now hash_draw key_draw c w).0
          (login e j s secrets bind now' c'
            (register e j s secrets bind now hash_draw key_draw c w).1).0
  unfolding register open_account start_session hash_password verify_password
  login-register hashing bind now now' hash_draw key_draw c c' w input response found tokens' b b'
        fresh done accepted asked signed =
      elim (Result-cases (hash_password secrets hash_draw input.password)) [
        | inr (cause, h) ↦ absurd (ground (arith, b, h, done, accepted))
        | inl (hashed, h) ↦ elim (Result-cases (generate_api_key secrets key_draw)) [
          | inr (cause, k) ↦ absurd (ground (arith, b, h, k, done, accepted))
          | inl (key, k) ↦
              let a : Account = record {
                user_id = e.uuids.created w.drawn;
                email = input.email;
                password_hash = hashed;
                api_key = key;
              } in
              elim (Result-cases (insert_account e.postgres a w.db).0) [
                | inr (cause, f) ↦ absurd (ground (arith, b, h, k, f, done, accepted))
                | inl (_, f) ↦ elim (Result-cases (issue_tokens j e.uuids s now a.user_id)) [
                  | inr (cause, t) ↦ absurd (ground (arith, b, h, k, f, t, done, accepted))
                  | inl (tokens, t) ↦
                      let stored : (register e j s secrets bind now hash_draw key_draw c w).1.db
                          ≡ (insert_account e.postgres a w.db).1 =
                        rw (b, h, k, f, t) refl in
                      let query = by_key insert_columns "users" "email" (text input.email) in
                      let asked' = sym (ap (λ db. (e.postgres.query query db).0) stored) ∙ asked in
                      let known =
                        ap (λ db. (find_account e.postgres input.email db).0) stored
                        ∙ find_account-insert_account e laws a w.db found fresh f asked' in
                      record {
                        account = a;
                        tokens = tokens;
                        tokens' = tokens';
                        address = refl;
                        registered = rw (b, h, k, f, t) refl;
                        logged_in =
                            login_lem bind now' c' _ input a tokens' b' known
                              (hashing.compare_generate hash_draw input.password hashed h) signed;
                      }
                ]
              ]
        ]
      ]
