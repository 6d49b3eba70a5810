-- ===== src/Examples/Serving.antt =====
-- The properties of the gateway at requests to one shop.
use Prim.Native.String.{[] as end, ◌∷◌ as char_cons}
use nimbus_run_a_self_hosted.Prelude.{
  String, ◌≡◌, refl, sym, ap, ◌∙◌, ◌≢◌, ◌⊎◌, inl, inr, Bool, true, ◌&&◌, Option, none, some, List,
  [], ◌∷◌, arith, eq_iff, str_eq, if◌then◌else◌, lookup, Bool-cases,
}
use nimbus_run_a_self_hosted.Prelude.Members.{In}
use nimbus_run_a_self_hosted.Prelude.Int.{pos, ◌+ℤ◌}
use nimbus_run_a_self_hosted.Prelude.Text.{spaced}
use nimbus_run_a_self_hosted.Prelude.Exec.{ok, err, errorf}
use nimbus_run_a_self_hosted.Platform.Data.{Uuid}
use nimbus_run_a_self_hosted.Platform.Postgres.{time}
use nimbus_run_a_self_hosted.Platform.Gin.{
  Piece, literal, colon, Route, Gin, IsGin, matches, Request, Response, Context, error_reply,
  object, identifier, integer, string,
}
use nimbus_run_a_self_hosted.Repository.Rows.{scan_first}
use nimbus_run_a_self_hosted.Repository.Functions
use nimbus_run_a_self_hosted.Repository.Versions
use nimbus_run_a_self_hosted.Auth.{
  validate_access_token, issue_tokens, key_func, text_claim, access_claims, refresh_claims,
}
use nimbus_run_a_self_hosted.Auth.Keys.{Secrets, IsSecrets, hash_password, generate_api_key}
use nimbus_run_a_self_hosted.Http.Functions.{deploy_found, build, deploy, rollback}
use nimbus_run_a_self_hosted.Http.Accounts.{
  insert_account, start_session, open_account, register, login,
}
use nimbus_run_a_self_hosted.Http.Routes.{Inputs, serve}
use nimbus_run_a_self_hosted.Http.Access.{Repelled, serve_unauthorized}
use nimbus_run_a_self_hosted.Http.Switching.{Switched, Kept, rollback_lem}
use nimbus_run_a_self_hosted.Http.Deploying.{Deployed, deploy_lem}
use nimbus_run_a_self_hosted.Http.Offline.{serve_offline}
use nimbus_run_a_self_hosted.Cli.{Flags, rollback_request}
use nimbus_run_a_self_hosted.Cli.Credentials.{received, rollback_refused}
use nimbus_run_a_self_hosted.Http.Sessions.{SamePerson, login-register}
use nimbus_run_a_self_hosted.Examples.Tables.{stroke_ids}
use nimbus_run_a_self_hosted.Examples.Samples.{env, env-IsEnv, shop}
use nimbus_run_a_self_hosted.Examples.Authenticating.{service, two_tokens}

abbrev pub bound : List Piece → List String → String → String
bound [] path name = ""
bound (p ∷ pattern) [] name = ""
bound (literal l ∷ pattern) (s ∷ path) name = bound pattern path name
bound (colon k ∷ pattern) (s ∷ path) name =
    let rest = bound pattern path name in if str_eq k name then s else rest

abbrev pub fits : {E : Type 0} → Request → Route E → Bool
fits r route = str_eq route.method r.method && matches route.pattern r.path

abbrev pub first_fit :
    {E : Type 0} → List (Route E) → Request → Option (Route E × (String → String))
first_fit [] r = none
first_fit (route ∷ table) r =
    let rest = first_fit table r in
    if fits r route then some (route, bound route.pattern r.path) else rest

-- The first route that fits.
abbrev pub linear : {E : Type 0} → Gin E
linear = record {
  find = first_fit;
  unrouted = λ table r. error_reply 404 "404 page not found";
  recovered = error_reply 500 "";
}

abbrev chosen : {E : Type 0} → Route E → Option (Route E × (String → String)) → Route E
chosen x none = x
chosen x (some (route, ps)) = route

first_fit_lem :
    {E : Type 0} (table : List (Route E)) (r : Request) (route : Route E) (ps : String → String)
    → first_fit table r ≡ some (route, ps)
    → In route table × (fits r route ≡ true)
first_fit_lem [] r route ps e = ground (arith, e)
first_fit_lem (x ∷ xs) r route ps e = elim (Bool-cases (fits r x)) [
  | inl here ↦
      let taken : some (x, bound x.pattern r.path) ≡ some (route, ps) =
        sym (ap (λ t. if t then some (x, bound x.pattern r.path) else first_fit xs r) here) ∙ e in
      let same : x ≡ route = ap (chosen x) taken in (inl (sym same), sym (ap (fits r) same) ∙ here)
  | inr other ↦
      let (m, f) = first_fit_lem xs r route ps (
        sym (ap (λ t. if t then some (x, bound x.pattern r.path) else first_fit xs r) other) ∙ e) in
      (inr m, f)
]

linear-IsGin : {E : Type 0} → IsGin {E = E} linear
linear-IsGin = record {
  find_mem = λ table r route ps e. (first_fit_lem table r route ps e).0;
  find_method = λ table r route ps e.
      ground (arith, (first_fit_lem table r route ps e).1, eq_iff route.method r.method);
  find_matches = λ table r route ps e. ground (arith, (first_fit_lem table r route ps e).1);
  unrouted_status = λ table r. inl refl;
  recovered_status = refl;
}

-- A password is its own hash.
abbrev pub plain : Secrets
plain = record {
  generate_from_password = λ draw password. ok password;
  compare_hash_and_password =
      λ hash password. if str_eq hash password then ok tt else err (errorf "mismatch");
  read_hex = λ draw n. ok "00";
}

plain-IsSecrets : IsSecrets plain
plain-IsSecrets = record {
  compare_generate = λ draw password hash e. ground (arith, e, eq_iff hash password);
}

abbrev pub inputs : Inputs
inputs = record {
  bind_function = λ body. err (errorf "EOF");
  bind_credentials = λ body. ok (record { email = "a@b.c"; password = "secret" });
  now = pos 0;
  server_now = time (pos 7);
  hash_draw = 0;
  key_draw = 0;
}

abbrev header : String → String
header name = if str_eq name "Authorization" then "Bearer refresh" else ""

-- `POST /functions/iii/deploy` with a refresh token.
abbrev deployment : Request
deployment = record {
  method = "POST";
  path = "functions" ∷ "iii" ∷ "deploy" ∷ [];
  header = header;
  query = λ name. "";
  body = "";
}

abbrev tail : String → String
tail end = end
tail (char_cons c s) = s

no_access :
    (t : String) (uid : Uuid)
    → header "Authorization" ≡ spaced "Bearer" t
    → validate_access_token two_tokens stroke_ids service t ≢ ok uid
unfolding validate_access_token key_func text_claim access_claims refresh_claims lookup
no_access t uid e h =
    let same = ap (λ s. tail (tail (tail (tail (tail (tail (tail s))))))) e in
    ground (arith, ap (validate_access_token two_tokens stroke_ids service) same ∙ h)

serve_unauthorized_example :
    (response : Response) × (serve env two_tokens service plain inputs linear deployment shop
      ≡ (ok response, shop))
    × Repelled env two_tokens service plain inputs linear linear-IsGin deployment response
serve_unauthorized_example =
    serve_unauthorized env two_tokens service plain inputs linear linear-IsGin deployment
      ("iii" ∷ "deploy" ∷ []) shop refl no_access

-- What a handler sees of `POST /functions/iii/…/1`.
abbrev context : Context
context = record {
  request = deployment;
  param = λ name. if str_eq name "id" then "iii" else "1";
  user_id = some "i";
}

serve_offline_example :
    (response : Response) × ((serve env two_tokens service plain inputs linear deployment shop).0
      ≡ ok response)
    × ((serve env two_tokens service plain inputs linear deployment shop).1.redis ≡ shop.redis)
    × ((serve env two_tokens service plain inputs linear deployment shop).1.timers ≡ shop.timers)
serve_offline_example = serve_offline env two_tokens service plain inputs linear deployment shop

rollback_lem_example :
    (response : Response) × ((rollback env (time (pos 7)) context shop).0 ≡ ok response)
    × (((response.status ≡ 200)
          × Switched env env-IsEnv
              (time (pos 7))
              context
              shop
              (rollback env (time (pos 7)) context shop).1)
        ⊎ Kept env env-IsEnv shop (rollback env (time (pos 7)) context shop).1 response "users")
rollback_lem_example = rollback_lem env env-IsEnv (time (pos 7)) context shop "users"

deploy_lem_example : Deployed env env-IsEnv 3 shop (deploy env context shop).1
unfolding deploy Functions.get_by_id scan_first lookup deploy_found Versions.latest_version_number
    Versions.create build ◌+ℤ◌
deploy_lem_example =
    deploy_lem env env-IsEnv context shop
      (record {
        status = 202;
        body = object (
            ("function_id", identifier 3)
            ∷ ("version_id", identifier 1)
            ∷ ("version", integer (pos 2))
            ∷ ("status", string "BUILDING")
            ∷ ("message", string "Build initiated")
            ∷ []);
      })
      3 refl refl refl

login-register_example :
    SamePerson env env-IsEnv two_tokens service plain "a@b.c"
      (register env two_tokens service plain inputs.bind_credentials (pos 0) 0 0 context shop).0
      (login env two_tokens service plain inputs.bind_credentials
        (pos 9)
        context
        (register env two_tokens service plain inputs.bind_credentials
          (pos 0)
          0
          0
          context
          shop).1).0
unfolding register hash_password generate_api_key open_account insert_account start_session
    issue_tokens text_claim lookup
login-register_example =
    login-register env env-IsEnv two_tokens service plain plain-IsSecrets inputs.bind_credentials
      (pos 0) (pos 9) 0 0 context context shop (record { email = "a@b.c"; password = "secret" }) _ _
      ("access", "refresh") refl refl refl refl refl refl refl

-- `nimbus rollback hello 1 --api-key nimbus_00`
abbrev flags : Flags
flags = record { api_url = "http://localhost:8080"; api_key = "nimbus_00"; bearer = "" }

abbrev command : Request
command = record {
  method = "POST";
  path = "functions" ∷ "hello" ∷ "rollback" ∷ "1" ∷ [];
  header = received (rollback_request flags "hello" "1");
  query = λ name. "";
  body = "";
}

rollback_refused_example :
    (response : Response) × (serve env two_tokens service plain inputs linear command shop
      ≡ (ok response, shop))
    × Repelled env two_tokens service plain inputs linear linear-IsGin command response
rollback_refused_example =
    rollback_refused env two_tokens service plain inputs linear linear-IsGin flags "hello" "1"
      command ("hello" ∷ "rollback" ∷ "1" ∷ []) shop refl refl refl
