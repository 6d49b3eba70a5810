-- ===== src/Observability/Steps.antt =====
-- A gauge that moves in steps of one: the sums, and how far it stays from 2 ^ 53.
use nimbus_run_a_self_hosted.Prelude.{ℕ, suc, ◌+◌, ◌^◌, ◌≤◌, ◌≡◌, arith}
use nimbus_run_a_self_hosted.Prelude.Int.{ℤ, pos, negsuc, above, below, ◌+ℤ◌, ◌-ℤ◌}
use nimbus_run_a_self_hosted.Platform.Prometheus.{IsExact}

pub add_zero : (v : ℤ) → v ≡ v +ℤ (pos 0 -ℤ pos 0)
unfolding ◌+ℤ◌ ◌-ℤ◌
add_zero (pos n) = ground arith
add_zero (negsuc n) = ground arith

pub zero_add : (v : ℤ) → pos 0 +ℤ v ≡ v
unfolding ◌+ℤ◌
zero_add (pos n) = ground arith
zero_add (negsuc n) = ground arith

pub one_up :
    (v : ℤ) (a b a' b' : ℕ)
    → a' ≡ suc a
    → b' ≡ b
    → v +ℤ pos 1 +ℤ (pos a -ℤ pos b) ≡ v +ℤ (pos a' -ℤ pos b')
unfolding ◌+ℤ◌ ◌-ℤ◌
one_up (pos n) a b a' b' e e' = ground arith
one_up (negsuc n) a b a' b' e e' = ground arith

pub one_down :
    (v : ℤ) (a b a' b' : ℕ)
    → a' ≡ a
    → b' ≡ suc b
    → v +ℤ negsuc 0 +ℤ (pos a -ℤ pos b) ≡ v +ℤ (pos a' -ℤ pos b')
unfolding ◌+ℤ◌ ◌-ℤ◌
one_down (pos n) a b a' b' e e' = ground arith
one_down (negsuc n) a b a' b' e e' = ground arith

-- Room for so many more steps of one.
abbrev pub Room : ℕ → ℤ → Type 0
Room n v = above v + below v + n ≤ 2 ^ 53

pub Room-IsExact : (n : ℕ) (v : ℤ) → Room (suc n) v → IsExact v
Room-IsExact n v h = omega arith

pub Room-up : (n : ℕ) (v : ℤ) → Room (suc n) v → Room n (v +ℤ pos 1)
unfolding ◌+ℤ◌
Room-up n (pos m) h = ground arith
Room-up n (negsuc m) h = ground arith

pub Room-down : (n : ℕ) (v : ℤ) → Room (suc n) v → Room n (v +ℤ negsuc 0)
unfolding ◌+ℤ◌
Room-down n (pos m) h = ground arith
Room-down n (negsuc m) h = ground arith
