-- ===== src/Idempotency/Keys.antt =====
-- internal/idempotency/idempotency.go: the key spaces of results and locks.
use Prim.Native.Nat.{ℕ}
use Prim.Native.Char.{code}
use Prim.Native.String.{String}
use mathlib.Core.Path.{◌≡◌, ap}
use mathlib.Core.Logic.{◌≢◌}
use native.Mathlib.Omega.{arith}
use text.Mathlib.TextLemmas.{append_cancel_left, cons-append}
use nimbus_run_a_self_hosted.Idempotency.{idem_key, lock_key}

pub lock_key_inj : (a b : String) → lock_key a ≡ lock_key b → a ≡ b
unfolding lock_key
lock_key_inj a b e = append_cancel_left "lock:" a b e

pub idem_key_inj : (a b : String) → idem_key a ≡ idem_key b → a ≡ b
unfolding idem_key
idem_key_inj a b e = append_cancel_left "idem:" a b e

-- The first character of a text.
abbrev pub first_code : String → ℕ
first_code String.[] = 0
first_code (String.◌∷◌ c s) = code c

pub first_code-idem_key : (a : String) → first_code (idem_key a) ≡ b'i'
unfolding idem_key
first_code-idem_key a = rw cons-append

pub first_code-lock_key : (a : String) → first_code (lock_key a) ≡ b'l'
unfolding lock_key
first_code-lock_key a = rw cons-append

-- A lock never lies where a result is kept.
pub idem_key-ne-lock_key : (a b : String) → idem_key a ≢ lock_key b
idem_key-ne-lock_key a b e =
    absurd (omega (arith, ap first_code e, first_code-idem_key a, first_code-lock_key b))
