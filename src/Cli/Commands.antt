-- ===== src/Cli/Commands.antt =====
-- cmd/cli/main.go: the table of the commands and their flags, and the program around it. cobra, which
-- reads the command line by this table, is a parameter.
pub mod Arguments
use nimbus_run_a_self_hosted.Prelude.{
  ℕ, zero, suc, String, Bool, true, false, List, [], ◌∷◌, if◌then◌else◌,
}
use nimbus_run_a_self_hosted.Prelude.Exec.{
  Error, panicked, is_panic, Result, ok, err, Exec, pure, raise, lift, attempt, ignore, ◌>>=◌, ◌>>◌,
}
use nimbus_run_a_self_hosted.Prelude.Int.{ℤ, pos}
use nimbus_run_a_self_hosted.Cli.{Flags, Host, login, deploy, invoke, logs, rollback, workers, dlq}

-- The `Args` of a command: absent, `cobra.MinimumNArgs` or `cobra.ExactArgs`.
pub data ArgsRule : Type 0 where
  unrestricted : ArgsRule
  minimum exact : ℕ → ArgsRule

pub data Default : Type 0 where
  text : String → Default
  number : ℤ → Default

pub record Flag : Type 0 where
  pub name : String
  pub default : Default
  pub usage : String
  pub required : Bool

-- The variables that the flags of these names are bound to, when a command runs.
pub record Values : Type 0 where
  pub text_of : String → String
  pub number_of : String → ℤ

unfoldable pub persistent : Values → Flags
persistent v = record {
  api_url = v.text_of "api";
  api_key = v.text_of "api-key";
  bearer = v.text_of "token";
}

-- `args[i]`
abbrev pub arg : ℕ → List String → Result String
arg i [] = err (panicked "index out of range")
arg zero (x ∷ rest) = ok x
arg (suc i) (x ∷ rest) = arg i rest

abbrev optional : String → String → String → Flag
optional name value usage = record {
  name = name;
  default = text value;
  usage = usage;
  required = false;
}

abbrev mandatory : String → String → Flag
mandatory name usage = record { name = name; default = text ""; usage = usage; required = true }

module _ (h : Host) where
  pub record Command : Type 0 where
    pub use_line : String
    pub short : String
    pub args : ArgsRule
    pub flags : List Flag
    pub run : Values → List String → Exec h.State (Unit {0})

  pub record RootCommand : Type 0 where
    pub use_line : String
    pub short : String
    pub long : String
    pub persistent_flags : List Flag
    pub commands : List Command

  unfoldable pub login_cmd : Command
  unfolding persistent
  login_cmd = record {
    use_line = "login";
    short = "Log in and store API key/token";
    args = unrestricted;
    flags = mandatory "email" "Email address" ∷ mandatory "password" "Password" ∷ [];
    run = λ v args. login h (persistent v) (v.text_of "email") (v.text_of "password");
  }

  unfoldable pub deploy_cmd : Command
  deploy_cmd = record {
    use_line = "deploy";
    short = "Deploy a function from a source ZIP";
    args = unrestricted;
    flags = mandatory "name" "Function name" ∷ mandatory "zip" "Path to source ZIP file" ∷ [];
    run = λ v args. deploy h (v.text_of "name") (v.text_of "zip");
  }

  unfoldable pub invoke_cmd : Command
  unfolding persistent
  invoke_cmd = record {
    use_line = "invoke <function-name>";
    short = "Invoke a deployed function";
    args = minimum 1;
    flags = optional "payload" "{}" "JSON payload" ∷ [];
    run = λ v args. lift (arg 0 args) >>= invoke h (persistent v) (v.text_of "payload");
  }

  unfoldable pub logs_cmd : Command
  logs_cmd = record {
    use_line = "logs <function-name>";
    short = "Fetch recent logs for a function";
    args = minimum 1;
    flags =
        record {
          name = "tail";
          default = number (pos 100);
          usage = "Number of log lines to fetch";
          required = false;
        }
        ∷ [];
    run = λ v args. lift (arg 0 args) >>= logs h (v.number_of "tail");
  }

  unfoldable pub rollback_cmd : Command
  unfolding persistent
  rollback_cmd = record {
    use_line = "rollback <function-name> <version>";
    short = "Rollback to a previous version";
    args = exact 2;
    flags = [];
    run = λ v args.
        lift (arg 0 args) >>= λ fn_name. lift (arg 1 args) >>= rollback h (persistent v) fn_name;
  }

  unfoldable pub workers_cmd : Command
  unfolding persistent
  workers_cmd = record {
    use_line = "workers";
    short = "List active workers";
    args = unrestricted;
    flags = [];
    run = λ v args. workers h (persistent v);
  }

  unfoldable pub dlq_cmd : Command
  unfolding persistent
  dlq_cmd = record {
    use_line = "dlq";
    short = "List dead-letter queue entries";
    args = unrestricted;
    flags = [];
    run = λ v args. dlq h (persistent v);
  }

  unfoldable pub root_cmd : RootCommand
  root_cmd = record {
    use_line = "nimbus";
    short = "NimbusRun CLI - deploy and invoke serverless functions";
    long = "A self-hosted serverless execution engine CLI.";
    persistent_flags =
        optional "api" "http://localhost:8080" "NimbusRun API URL"
        ∷ optional "api-key" "" "API key for authentication"
        ∷ optional "token" "" "Bearer token (alternative to API key)"
        ∷ [];
    commands =
        login_cmd ∷ deploy_cmd ∷ invoke_cmd ∷ logs_cmd ∷ rollback_cmd ∷ workers_cmd ∷ dlq_cmd ∷ [];
  }

  -- `execute` reads the command line, and runs the command that it names if its rule `accepts` the
  -- number of arguments.
  pub record Cobra : Type 0 where
    pub accepts : ArgsRule → ℕ → Bool
    pub execute : RootCommand → Exec h.State (Unit {0})
    pub print_error : Error → Exec h.State (Unit {0})

  -- The exit status of the program.
  unfoldable pub main : Cobra → Exec h.State ℕ
  main c = do
    done ← attempt (c.execute root_cmd)
    elim done [
      | ok _ ↦ pure 0
      | err e ↦ if is_panic e then raise e else do ignore (c.print_error e); pure 1
    ]
