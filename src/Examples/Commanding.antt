-- ===== src/Examples/Commanding.antt =====
-- The command `rollback` with its two arguments.
use nimbus_run_a_self_hosted.Prelude.{ℕ, suc, Bool, true, ◌==◌, leb}
use nimbus_run_a_self_hosted.Prelude.Exec.{ok}
use nimbus_run_a_self_hosted.Prelude.Int.{pos}
use nimbus_run_a_self_hosted.Cli.{Host}
use nimbus_run_a_self_hosted.Cli.Commands.{ArgsRule, unrestricted, minimum, exact, Values, Cobra}

-- A machine on which everything succeeds, whose state counts the requests.
abbrev desk : Host
desk = record {
  State = ℕ;
  new_request = λ method url. ok tt;
  send = λ req s. (ok (record { status = 200; content = "{}" }), suc s);
  read_file = λ path s. (ok "zip", s);
  write_file = λ path content s. (ok tt, s);
  print_line = λ line s. (ok tt, s);
  marshal = λ fields. "{}";
  decode_session = λ content. record { access_token = "t"; api_key = "k" };
  format_int = λ n. "100";
  size = λ content. "3";
}

abbrev accepted : ArgsRule → ℕ → Bool
accepted unrestricted k = true
accepted (minimum n) k = leb n k
accepted (exact n) k = k == n

abbrev cobra : Cobra desk
cobra = record {
  accepts = accepted;
  execute = λ root s. (ok tt, s);
  print_error = λ e s. (ok tt, s);
}

abbrev given : Values
given = record { text_of = λ name. ""; number_of = λ name. pos 100 }
