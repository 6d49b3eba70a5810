-- ===== src/Cli.antt =====
-- cmd/cli/main.go: the commands. cobra's parsing of the flags and net/http are parameters.
pub mod Credentials
pub mod Commands
use Prim.Native.String.{◌++◌ as str_append}
use nimbus_run_a_self_hosted.Prelude.{
  ℕ, String, not, List, [], ◌∷◌, ◌++◌, ◌==◌, str_eq, if◌then◌else◌,
}
use nimbus_run_a_self_hosted.Prelude.Exec.{
  errorf, panicked, Result, ok, err, Exec, pure, raise, attempt, ignore, wrap_with, ◌>>=◌, ◌>>◌,
}
use nimbus_run_a_self_hosted.Prelude.Int.{ℤ}

-- The persistent flags.
pub record Flags : Type 0 where
  pub api_url : String
  pub api_key : String
  pub bearer : String

pub record Outgoing : Type 0 where
  pub method : String
  pub url : String
  pub headers : List (String × String)
  pub body : String

-- The status and the body of a reply.
pub record Reply : Type 0 where
  pub status : ℕ
  pub content : String

-- The fields that `login` decodes of a reply; a field that is not there is empty.
pub record Session : Type 0 where
  pub access_token : String
  pub api_key : String

-- The machine that the command runs on, with the packages it calls. `new_request` is the error of
-- `http.NewRequest` for a method and a URL; `send` sends a request and reads the reply's body.
pub record Host : Type 1 where
  pub State : Type 0
  pub new_request : String → String → Result (Unit {0})
  pub send : Outgoing → Exec State Reply
  pub read_file : String → Exec State String
  pub write_file : String → String → Exec State (Unit {0})
  pub print_line : String → Exec State (Unit {0})
  pub marshal : List (String × String) → String
  pub decode_session : String → Session
  pub format_int : ℤ → String
  -- The number of bytes of a text, in decimal.
  pub size : String → String

unfoldable pub bearer_headers : Flags → List (String × String)
bearer_headers flags =
    if not (str_eq flags.bearer "")
    then ("Authorization", str_append "Bearer " flags.bearer) ∷ []
    else []

unfoldable pub credential_headers : Flags → List (String × String)
credential_headers flags =
    if not (str_eq flags.bearer "")
    then ("Authorization", str_append "Bearer " flags.bearer) ∷ []
    else if not (str_eq flags.api_key "")
    then ("X-API-Key", flags.api_key) ∷ []
    else []

abbrev json_type : String × String
json_type = ("Content-Type", "application/json")

unfoldable pub login_request : Host → Flags → String → String → Outgoing
login_request h flags email password = record {
  method = "POST";
  url = str_append flags.api_url "/auth/login";
  headers = json_type ∷ [];
  body = h.marshal (("email", email) ∷ ("password", password) ∷ []);
}

unfoldable pub invoke_request : Host → Flags → String → String → Outgoing
unfolding credential_headers
invoke_request h flags fn_name payload = record {
  method = "POST";
  url = str_append flags.api_url (str_append "/f/" fn_name);
  headers = json_type ∷ credential_headers flags;
  body = h.marshal (("payload", payload) ∷ []);
}

unfoldable pub rollback_request : Flags → String → String → Outgoing
unfolding credential_headers
rollback_request flags fn_name version = record {
  method = "POST";
  url =
      str_append flags.api_url
        (str_append "/functions/" (str_append fn_name (str_append "/rollback/" version)));
  headers = credential_headers flags;
  body = "";
}

unfoldable pub workers_request : Flags → Outgoing
unfolding bearer_headers
workers_request flags = record {
  method = "GET";
  url = str_append flags.api_url "/workers";
  headers = bearer_headers flags;
  body = "";
}

unfoldable pub dlq_request : Flags → Outgoing
unfolding bearer_headers
dlq_request flags = record {
  method = "GET";
  url = str_append flags.api_url "/dlq";
  headers = bearer_headers flags;
  body = "";
}

abbrev pub nil_dereference : String
nil_dereference = "invalid memory address or nil pointer dereference"

module _ (h : Host) where
  -- The error of `http.NewRequest` is dropped, so that the request is nil where there is one, and its
  -- first use panics.
  unfoldable pub deliver : Outgoing → Exec h.State Reply
  deliver req = elim (h.new_request req.method req.url) [
    | ok _ ↦ h.send req
    | err cause ↦ raise (panicked nil_dereference)
  ]

  -- A request whose reply is printed.
  abbrev pub show_reply : Outgoing → Exec h.State (Unit {0})
  show_reply req = do resp ← deliver req; ignore (h.print_line resp.content)

  -- `login` once the reply is there; an error of the writing is dropped.
  unfoldable pub keep_session : Reply → Exec h.State (Unit {0})
  keep_session resp =
      if not (resp.status == 200)
      then raise (errorf (str_append "login failed: " resp.content))
      else let session = h.decode_session resp.content in
        ignore (
          h.write_file ".nimbus" (
            str_append "api_key=" (
              str_append session.api_key
                (str_append "\nbearer=" (str_append session.access_token "\n")))))
        >> ignore (h.print_line "Login successful. Credentials saved to .nimbus")

  unfoldable pub login : Flags → String → String → Exec h.State (Unit {0})
  login flags email password = deliver (login_request h flags email password) >>= keep_session

  unfoldable pub deploy : String → String → Exec h.State (Unit {0})
  deploy func_name zip_path = do
    zip_data ← wrap_with "reading zip" (h.read_file zip_path)
    ignore (
        h.print_line (
          str_append "Deploying function '" (
            str_append func_name (
              str_append "' from "
                (str_append zip_path (str_append " (" (str_append (h.size zip_data) " bytes)")))))))
    ignore (h.print_line "Uploading source...")
    ignore (h.print_line "Deploy initiated. Run 'nimbus logs' to see build status.")

  unfoldable pub invoke : Flags → String → String → Exec h.State (Unit {0})
  invoke flags payload fn_name = show_reply (invoke_request h flags fn_name payload)

  unfoldable pub logs : ℤ → String → Exec h.State (Unit {0})
  logs tail fn_name = do
    ignore (
        h.print_line (
          str_append "Fetching last " (
            str_append (h.format_int tail)
              (str_append " log lines for function '" (str_append fn_name "'...")))))
    ignore (h.print_line "(logs endpoint would be called here)")

  unfoldable pub rollback : Flags → String → String → Exec h.State (Unit {0})
  rollback flags fn_name version = show_reply (rollback_request flags fn_name version)

  unfoldable pub workers : Flags → Exec h.State (Unit {0})
  workers flags = show_reply (workers_request flags)

  unfoldable pub dlq : Flags → Exec h.State (Unit {0})
  dlq flags = show_reply (dlq_request flags)
