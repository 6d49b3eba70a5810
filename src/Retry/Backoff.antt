-- ===== src/Retry/Backoff.antt =====
-- internal/retry/backoff.go. Durations are in nanoseconds; `draw` is what `rand.Float64` returns.
use nimbus_run_a_self_hosted.Prelude.{◌*◌, Bool, true, if◌then◌else◌}
use nimbus_run_a_self_hosted.Prelude.Int.{ℤ, pos, ◌-ℤ◌, leb_ℤ, ltb_ℤ}
use nimbus_run_a_self_hosted.Platform.Data.{second}
use nimbus_run_a_self_hosted.Platform.Float.{Float64}

module _ (f : Float64) where
  open f use {Float, lit, of_int, to_int, add, mul, pow, lt}

  pub record Config : Type 0 where
    pub initial_delay : ℤ
    pub multiplier : Float
    pub max_retries : ℤ
    pub max_delay : ℤ
    pub jitter : Bool

  unfoldable pub default_config : Config
  default_config = record {
    initial_delay = pos (1 * second);
    multiplier = lit 2 1;
    max_retries = pos 3;
    max_delay = pos (30 * second);
    jitter = true;
  }

  unfoldable pub calculate : Config → Float → ℤ → ℤ
  calculate c draw attempt =
      if leb_ℤ attempt (pos 0)
      then pos 0
      else let raised =
          mul (of_int c.initial_delay) (pow c.multiplier (of_int (attempt -ℤ pos 1))) in
        let capped = if lt (of_int c.max_delay) raised then of_int c.max_delay else raised in
        let jittered = if c.jitter then add capped (mul (mul capped (lit 3 10)) draw) else capped in
        to_int jittered

  unfoldable pub should_retry : Config → ℤ → Bool
  should_retry c attempt = ltb_ℤ attempt c.max_retries
