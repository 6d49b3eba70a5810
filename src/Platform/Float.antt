-- ===== src/Platform/Float.antt =====
-- float64, taken as a type with operations, since the values are not exact. `lit n d` is the float
-- nearest to n / d: the literal 0.5 is `lit 1 2`.
use nimbus_run_a_self_hosted.Prelude.{ℕ, ◌≡◌, Bool, true, false}
use nimbus_run_a_self_hosted.Prelude.Int.{ℤ}

pub record Float64 : Type 1 where
  pub Float : Type 0
  pub lit : ℕ → ℕ → Float
  pub of_int : ℤ → Float
  pub to_int : Float → ℤ
  pub add : Float → Float → Float
  pub mul : Float → Float → Float
  pub div : Float → Float → Float
  pub pow : Float → Float → Float
  pub lt : Float → Float → Bool

-- The laws of IEEE 754 that the development uses; they hold for NaN as well.
pub record IsFloat64 (f : Float64) : Type 0 where
  pub lt_irrefl : (x : f.Float) → f.lt x x ≡ false
  pub lt_trans : (x y z : f.Float) → f.lt x y ≡ true → f.lt y z ≡ true → f.lt x z ≡ true
