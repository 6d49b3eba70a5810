-- ===== src/Prelude/Int.antt =====
-- Go's signed integers: the integers over the native numbers, and the 64-bit words inside them.
use Prim.Native.Nat.{ℕ, suc, ◌+◌, ◌-◌, ◌*◌, ◌/◌, ◌%◌, ◌^◌, ◌≤◌, ◌<◌}
use mathlib.Core.Path.{◌≡◌}
use mathlib.Core.Bool.{Bool, true}
use native.Mathlib.Omega.{arith}
use nimbus_run_a_self_hosted.Prelude.Tests.{ltb, leb, ◌==◌, if◌then◌else◌}

-- `negsuc n` is -(n + 1).
pub data ℤ : Type 0 where
  pos : ℕ → ℤ
  negsuc : ℕ → ℤ

abbrev pub above : ℤ → ℕ
above (pos n) = n
above (negsuc n) = 0

abbrev pub below : ℤ → ℕ
below (pos n) = 0
below (negsuc n) = suc n

abbrev pub minus : ℕ → ℕ → ℤ
minus a b = if ltb a b then negsuc (b - a - 1) else pos (a - b)

infixl 65 ◌+ℤ◌ ◌-ℤ◌
infixl 70 ◌*ℤ◌
infix 50 ◌≤ℤ◌ ◌<ℤ◌
unfoldable pub ◌+ℤ◌ : ℤ → ℤ → ℤ
a +ℤ b = minus (above a + above b) (below a + below b)

unfoldable pub ◌-ℤ◌ : ℤ → ℤ → ℤ
a -ℤ b = minus (above a + below b) (below a + above b)

unfoldable pub ◌*ℤ◌ : ℤ → ℤ → ℤ
a *ℤ b = minus (above a * above b + below a * below b) (above a * below b + below a * above b)

abbrev pub ◌≤ℤ◌ : ℤ → ℤ → Type 0
a ≤ℤ b = above a + below b ≤ above b + below a

abbrev pub ◌<ℤ◌ : ℤ → ℤ → Type 0
a <ℤ b = above a + below b < above b + below a

abbrev pub ltb_ℤ : ℤ → ℤ → Bool
ltb_ℤ a b = ltb (above a + below b) (above b + below a)

abbrev pub leb_ℤ : ℤ → ℤ → Bool
leb_ℤ a b = leb (above a + below b) (above b + below a)

abbrev pub eqb_ℤ : ℤ → ℤ → Bool
eqb_ℤ a b = (above a + below b) == (above b + below a)

-- The test is equality.
pub eqb_ℤ_eq : (a b : ℤ) → eqb_ℤ a b ≡ true → a ≡ b
eqb_ℤ_eq (pos a) (pos b) e = ground arith
eqb_ℤ_eq (pos a) (negsuc b) e = ground arith
eqb_ℤ_eq (negsuc a) (pos b) e = ground arith
eqb_ℤ_eq (negsuc a) (negsuc b) e = ground arith

-- Go's `/` and `%` by a positive number: towards zero, with the remainder's sign that of `a`.
unfoldable pub quot_ℤ : ℤ → ℕ → ℤ
quot_ℤ (pos n) d = pos (n / d)
quot_ℤ (negsuc n) d = minus 0 (suc n / d)

unfoldable pub rem_ℤ : ℤ → ℕ → ℤ
rem_ℤ (pos n) d = pos (n % d)
rem_ℤ (negsuc n) d = minus 0 (suc n % d)

-- The int64 that a computation over the integers leaves in a register.
unfoldable pub int64 : ℤ → ℤ
int64 x =
    let bits = (above x % 2 ^ 64 + (2 ^ 64 - below x % 2 ^ 64)) % 2 ^ 64 in
    if ltb bits (2 ^ 63) then pos bits else negsuc (2 ^ 64 - bits - 1)

-- The range of int64.
abbrev pub InInt64 : ℤ → Type 0
InInt64 x = (below x ≤ 2 ^ 63) × (above x < 2 ^ 63)

-- In range nothing wraps.
pub int64_of_InInt64 : (x : ℤ) → InInt64 x → int64 x ≡ x
unfolding int64
int64_of_InInt64 (pos n) h = ground arith
int64_of_InInt64 (negsuc n) h = ground arith
