-- ===== src/Cli/Commands/Arguments.antt =====
-- cmd/cli/main.go: the arguments that the commands take are there.
use Prim.Native.String.{◌++◌ as str_append}
use nimbus_run_a_self_hosted.Prelude.{ℕ, ◌≤◌, String, ◌≡◌, ◌⊎◌, Option, none, some, true}
use nimbus_run_a_self_hosted.Prelude.Exec.{Error, panicked, err, panic_of}
use nimbus_run_a_self_hosted.Cli.{Outgoing, Host, nil_dereference}
use nimbus_run_a_self_hosted.Cli.Commands.{minimum, exact, Values, Cobra}

module _ (h : Host) where
  -- Sending a request and reading a file do not panic.
  pub record IsCalm : Type 0 where
    pub send_calm : (req : Outgoing) (s : h.State) → panic_of (h.send req s).0 ≡ none
    pub read_file_calm : (path : String) (s : h.State) → panic_of (h.read_file path s).0 ≡ none

  -- There is no panic but that of a nil request, where `http.NewRequest` has failed for a URL that
  -- begins with the value of `--api`.
  abbrev pub CalmBut : Values → Option Error → Type 0
  CalmBut v out =
      (out ≡ none)
      ⊎ ((method : String) × (path : String) × (cause : Error) × (h.new_request method
              (str_append (v.text_of "api") path)
            ≡ err cause)
          × (out ≡ some (panicked nil_dereference)))

  -- What cobra documents of the two rules.
  pub record IsCobra (c : Cobra h) : Type 0 where
    pub minimum_accepts : (n k : ℕ) → c.accepts (minimum n) k ≡ true → n ≤ k
    pub exact_accepts : (n k : ℕ) → c.accepts (exact n) k ≡ true → k ≡ n
