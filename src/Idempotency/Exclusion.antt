-- ===== src/Idempotency/Exclusion.antt =====
-- internal/idempotency/idempotency.go: the lock over a sequence of calls of many callers.
use nimbus_run_a_self_hosted.Prelude.{
  ℕ, String, ◌≡◌, ◌≢◌, ◌⊎◌, refl, inl, inr, ap, ◌∙◌, Bool-cases, true, false, none, some, List, [],
  ◌∷◌, arith, eq_iff, str_eq, select, not,
}
use nimbus_run_a_self_hosted.Prelude.Exec.{ok, Result-cases}
use nimbus_run_a_self_hosted.Platform.Redis.{Redis, IsRedis}
use nimbus_run_a_self_hosted.Idempotency.{lock_key, acquire_lock, release_script, release_lock}
use nimbus_run_a_self_hosted.Idempotency.Locks.{holder, acquire_lock-holder}

-- A caller gives a token up.
abbrev pub without : String → List String → List String
without token held = select (λ t. not (str_eq t token)) held

module _ (r : Redis) (laws : IsRedis r) (key : String) where
  -- `Trace held s`: from a free lock, calls in some order have led to the state `s`, and the tokens
  -- in `held` are those that a call has got, that are not given up and have not expired. The reply of
  -- a call may be lost: `AcquireLock` then reports that it has not got the lock, although the server
  -- may have set it, and a caller whose release fails takes its token for given up.
  pub data Trace : List String → r.State → Type 0 where
    begin : (s : r.State) → holder r laws key s ≡ none → Trace [] s
    took :
        (held : List String) (s : r.State) (token : String) (ttl : ℕ)
        → Trace held s
        → (acquire_lock r key token ttl s).0 ≡ ok (true, token)
        → Trace (token ∷ held) (acquire_lock r key token ttl s).1
    refused :
        (held : List String) (s : r.State) (token t : String) (ttl : ℕ)
        → Trace held s
        → (acquire_lock r key token ttl s).0 ≡ ok (false, t)
        → Trace held (acquire_lock r key token ttl s).1
    released :
        (held : List String) (s : r.State) (token : String)
        → Trace held s
        → Trace (without token held) (release_lock r key token s).1
    expired :
        (held : List String) (s t : r.State)
        → Trace held s
        → holder r laws key t ≡ none
        → Trace [] t

  -- A call that takes nothing leaves a holder alone.
  acquire_lock_refused :
      (s : r.State) (token t mine : String) (ttl : ℕ)
      → key ≢ ""
      → holder r laws key s ≡ some mine
      → (acquire_lock r key token ttl s).0 ≡ ok (false, t)
      → holder r laws key (acquire_lock r key token ttl s).1 ≡ some mine
  unfolding acquire_lock
  acquire_lock_refused s token t mine ttl h busy e =
      let still = laws.set_nx_taken s (lock_key key) token ttl mine (lock_key key) busy in
      elim (Result-cases (r.set_nx (lock_key key) token ttl s).0) [
        | inl (b, f) ↦ ground (arith, f, eq_iff key "", still, busy)
        | inr (cause, f) ↦ ground (arith, f, eq_iff key "", still, busy)
      ]

  release_script_other :
      (s : r.State) (token mine : String)
      → r.call_get (lock_key key) s ≡ some mine
      → str_eq mine token ≡ false
      → (release_script r (lock_key key) token s).1 ≡ s
  unfolding release_script
  release_script_other s token mine busy other = rw (busy, release_script) (rw (other) refl)

  -- A release with another token leaves the holder alone, whether its reply arrives or not.
  release_lock_other :
      (s : r.State) (token mine : String)
      → key ≢ ""
      → holder r laws key s ≡ some mine
      → str_eq mine token ≡ false
      → holder r laws key (release_lock r key token s).1 ≡ some mine
  unfolding release_lock
  release_lock_other s token mine h busy other =
      let script = release_script r (lock_key key) token in
      let same = release_script_other s token mine busy other in
      let still : r.call_get (lock_key key) (r.eval script s).1 ≡ some mine =
        elim (laws.eval_whole s script) [
          | inl whole ↦ ap (r.call_get (lock_key key)) (whole ∙ same) ∙ busy
          | inr none_of_it ↦ ap (r.call_get (lock_key key)) none_of_it ∙ busy
        ] in
      elim (Result-cases (r.eval script s).0) [
        | inl (n, f) ↦ ground (arith, f, eq_iff key "", still)
        | inr (cause, f) ↦ ground (arith, f, eq_iff key "", still)
      ]

  -- On every sequence of acquiring and releasing calls that starts from a free lock, with lost replies
  -- and expiries among them, at most one token is held at a time, and while one is held, the lock on
  -- the server has that token.
  pub acquire_lock_exclusive :
      (held : List String) (s : r.State)
      → key ≢ ""
      → Trace held s
      → (held ≡ []) ⊎ ((token : String) × (held ≡ token ∷ []) × (holder r laws key s ≡ some token))
  acquire_lock_exclusive _ _ h (begin s free) = inl refl
  acquire_lock_exclusive _ _ h (took before t token ttl trace got) =
      let (same, free, now) = acquire_lock-holder r laws t key token token ttl h got in
      elim (acquire_lock_exclusive before t h trace) [
        | inl none_held ↦ inr (token, ap (λ hs. token ∷ hs) none_held, now)
        | inr (other, _, busy) ↦ absurd (ground (arith, free, busy))
      ]
  acquire_lock_exclusive _ _ h (refused before t token u ttl trace no_lock) =
      elim (acquire_lock_exclusive before t h trace) [
        | inl none_held ↦ inl none_held
        | inr (mine, one_held, busy) ↦
            inr (mine, one_held, acquire_lock_refused t token u mine ttl h busy no_lock)
      ]
  acquire_lock_exclusive _ _ h (released before t token trace) =
      elim (acquire_lock_exclusive before t h trace) [
        | inl none_held ↦ inl (ap (without token) none_held)
        | inr (mine, one_held, busy) ↦ elim (Bool-cases (str_eq mine token)) [
          | inl owner ↦ inl (ap (without token) one_held ∙ ground (arith, owner))
          | inr stranger ↦ inr (
            mine,
            ap (without token) one_held ∙ ground (arith, stranger),
            release_lock_other t token mine h busy stranger,
          )
        ]
      ]
  acquire_lock_exclusive _ _ h (expired before s t trace free) = inl refl
