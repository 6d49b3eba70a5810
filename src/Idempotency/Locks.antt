-- ===== src/Idempotency/Locks.antt =====
-- internal/idempotency/idempotency.go: the distributed lock.
use nimbus_run_a_self_hosted.Prelude.{
  ℕ, String, ◌≡◌, ◌≢◌, refl, inl, inr, Bool, true, false, Option, none, some, arith, eq_iff, str_eq,
  if◌then◌else◌,
}
use nimbus_run_a_self_hosted.Prelude.Exec.{ok, Result-cases}
use nimbus_run_a_self_hosted.Platform.Redis.{Redis, IsRedis}
use nimbus_run_a_self_hosted.Idempotency.{lock_key, acquire_lock, release_script, release_lock}

module _ (r : Redis) (laws : IsRedis r) where
  -- Who holds the lock of a key: the token that the server keeps.
  abbrev pub holder : String → r.State → Option String
  holder key s = r.call_get (lock_key key) s

  -- An attempt to take the lock of a key either takes a free lock, which then has its token, or it
  -- takes nothing; so it never succeeds while the lock has a holder.
  pub acquire_lock_taken :
      (s : r.State) (key token held : String) (ttl : ℕ)
      → key ≢ ""
      → holder key s ≡ some held
      → (b : Bool) × (t : String) × ((acquire_lock r key token ttl s).0 ≡ ok (b, t)) × (b ≡ false)
  unfolding acquire_lock
  acquire_lock_taken s key token held ttl h busy =
      elim (Result-cases (r.set_nx (lock_key key) token ttl s).0) [
        | inl (b, e) ↦ (
          b,
          token,
          ground (arith, e, eq_iff key ""),
          ground (arith, laws.set_nx_ok s (lock_key key) token ttl b e),
        )
        | inr (cause, e) ↦ (false, "", ground (arith, e, eq_iff key ""), refl)
      ]

  -- An attempt that reports success has left its own token in the lock.
  pub acquire_lock-holder :
      (s : r.State) (key token t : String) (ttl : ℕ)
      → key ≢ ""
      → (acquire_lock r key token ttl s).0 ≡ ok (true, t)
      → (t ≡ token)
        × (holder key s ≡ none)
        × (holder key (acquire_lock r key token ttl s).1 ≡ some token)
  unfolding acquire_lock
  acquire_lock-holder s key token t ttl h taken =
      elim (Result-cases (r.set_nx (lock_key key) token ttl s).0) [
        | inl (b, e) ↦ ground (
          arith,
          e,
          eq_iff key "",
          eq_iff (lock_key key) (lock_key key),
          laws.set_nx_ok s (lock_key key) token ttl b e,
          laws.set_nx_value s (lock_key key) token ttl b (lock_key key) e,
        )
        | inr (cause, e) ↦ absurd (ground (arith, e, eq_iff key ""))
      ]

  -- A release that succeeds frees the lock if it is given the holder's token, and otherwise leaves
  -- the holder as it was.
  pub holder-release_lock :
      (s : r.State) (key token : String)
      → key ≢ ""
      → (release_lock r key token s).0 ≡ ok tt
      → holder key (release_lock r key token s).1 ≡ (elim (holder key s) [
        | none ↦ none
        | some held ↦ if str_eq held token then none else some held
      ])
  unfolding release_lock
  holder-release_lock s key token h freed =
      elim (Result-cases (r.eval (release_script r (lock_key key) token) s).0) [
        | inl (n, e) ↦ ground (
          arith,
          e,
          eq_iff key "",
          eq_iff (lock_key key) (lock_key key),
          laws.eval_ok s (release_script r (lock_key key) token) n e,
          laws.call_del_value (lock_key key) (lock_key key) s,
        )
        | inr (cause, e) ↦ ground (arith, e, eq_iff key "")
      ]
