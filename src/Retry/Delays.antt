-- ===== src/Retry/Delays.antt =====
-- internal/retry/backoff.go: bounds on the delay before a retry.
use nimbus_run_a_self_hosted.Prelude.{◌≡◌, false, arith, ◌⊎◌, inl, inr, Bool-cases}
use nimbus_run_a_self_hosted.Prelude.Int.{ℤ, pos, leb_ℤ, ◌≤ℤ◌, ◌-ℤ◌}
use nimbus_run_a_self_hosted.Platform.Float.{Float64, IsFloat64}
use nimbus_run_a_self_hosted.Retry.Backoff.{Config, calculate}

module _ (f : Float64) (laws : IsFloat64 f) where
  -- Without jitter the delay of every later attempt is the integer part of a float that is not above
  -- the configured maximum, and that of an attempt up to 0 is 0.
  pub calculate_capped :
      (c : Config f) (draw : f.Float) (attempt : ℤ)
      → c.jitter ≡ false
      → ((calculate f c draw attempt ≡ pos 0) × (attempt ≤ℤ pos 0))
        ⊎ ((x : f.Float) × (calculate f c draw attempt ≡ f.to_int x)
            × (f.lt (f.of_int c.max_delay) x ≡ false))
  unfolding calculate
  calculate_capped c draw attempt still = elim (Bool-cases (leb_ℤ attempt (pos 0))) [
    | inl none ↦ inl (ground (arith, none), ground (arith, none))
    | inr some ↦
        let raised =
          f.mul (f.of_int c.initial_delay) (f.pow c.multiplier (f.of_int (attempt -ℤ pos 1))) in
        elim (Bool-cases (f.lt (f.of_int c.max_delay) raised)) [
          | inl over ↦
              inr (f.of_int c.max_delay, ground (arith, some, over, still), laws.lt_irrefl _)
          | inr under ↦ inr (raised, ground (arith, some, under, still), under)
        ]
  ]
