-- ===== src/Scheduler/Cleaning.antt =====
-- internal/scheduler/heartbeat_store.go: `CleanStale` and the counts, whatever the order of the
-- walks.
use mathlib.Core.List.Permᴰ
use nimbus_run_a_self_hosted.Prelude.{
  ℕ, suc, ◌+◌, String, ◌≡◌, ◌≢◌, refl, sym, ap, ◌∙◌, inl, inr, Bool, true, false, not, Option, none,
  some, [], ◌∷◌, arith, eq_iff, Bool-cases, length, lookup, discard, lookup-discard, if◌then◌else◌,
}
use nimbus_run_a_self_hosted.Prelude.Members.{
  In, perm-In, perm-length, count_if, count_if-perm, Distinct, lookup-In, In-lookup,
  discard-Distinct,
}
use nimbus_run_a_self_hosted.Platform.Data.{Time}
use nimbus_run_a_self_hosted.Queue.Types.{WorkerHeartbeat}
use nimbus_run_a_self_hosted.Queue.Heartbeat.{is_healthy}
use nimbus_run_a_self_hosted.Scheduler.Choice.{IsOrder}
use nimbus_run_a_self_hosted.Scheduler.Store.{
  Workers, Order, WorkerHeartbeatStore, get, clean_loop, clean_stale, count, count_loop,
  count_healthy,
}

module _ {F : Type 0} (now : Time) where
  -- The entries that a cleaning removes.
  abbrev pub stale : String × WorkerHeartbeat F → Bool
  stale e = not (is_healthy now e.1)

  clean_loop_keep :
      (id : String) (w : WorkerHeartbeat F) (rest m : Workers F) (n : ℕ)
      → is_healthy now w ≡ true
      → clean_loop now ((id, w) ∷ rest) m n ≡ clean_loop now rest m n
  unfolding clean_loop
  clean_loop_keep id w rest m n e = rw e

  clean_loop_drop :
      (id : String) (w : WorkerHeartbeat F) (rest m : Workers F) (n : ℕ)
      → is_healthy now w ≡ false
      → clean_loop now ((id, w) ∷ rest) m n ≡ clean_loop now rest (discard id m) (suc n)
  unfolding clean_loop
  clean_loop_drop id w rest m n e = rw e

  clean_loop-count : (xs m : Workers F) (n : ℕ) → (clean_loop now xs m n).1 ≡ n + count_if stale xs
  unfolding clean_loop
  clean_loop-count [] m n = omega arith
  clean_loop-count ((id, w) ∷ rest) m n = elim (Bool-cases (is_healthy now w)) [
    | inl e ↦ rw (clean_loop_keep id w rest m n e, e) (clean_loop-count rest m n)
    | inr e ↦
        rw (clean_loop_drop id w rest m n e, e)
          (omega (arith, clean_loop-count rest (discard id m) (suc n)))
  ]

  clean_loop-none :
      (k : String) (xs m : Workers F) (n : ℕ)
      → lookup k m ≡ none
      → lookup k (clean_loop now xs m n).0 ≡ none
  unfolding clean_loop
  clean_loop-none k [] m n h = h
  clean_loop-none k ((id, w) ∷ rest) m n h = elim (Bool-cases (is_healthy now w)) [
    | inl e ↦ rw (clean_loop_keep id w rest m n e) (clean_loop-none k rest m n h)
    | inr e ↦
        rw (clean_loop_drop id w rest m n e)
          (clean_loop-none k rest (discard id m) (suc n) (ground (arith, lookup-discard id k m)))
  ]

  clean_loop-stale :
      (k : String) (v : WorkerHeartbeat F) (xs m : Workers F) (n : ℕ)
      → In (k, v) xs
      → is_healthy now v ≡ false
      → lookup k (clean_loop now xs m n).0 ≡ none
  unfolding clean_loop
  clean_loop-stale k v [] m n h e = absurd h
  clean_loop-stale k v ((id, w) ∷ rest) m n (inl same) e =
      let e' : is_healthy now w ≡ false = cc in
      rw (clean_loop_drop id w rest m n e') (
        clean_loop-none k rest (discard id m) (suc n)
          (ground (arith, lookup-discard id k m, eq_iff id k)))
  clean_loop-stale k v ((id, w) ∷ rest) m n (inr h) e = clean_loop-stale k v rest _ _ h e

  clean_loop-fresh :
      (k : String) (xs m : Workers F) (n : ℕ)
      → ((v : WorkerHeartbeat F) → In (k, v) xs → is_healthy now v ≡ true)
      → lookup k (clean_loop now xs m n).0 ≡ lookup k m
  unfolding clean_loop
  clean_loop-fresh k [] m n h = refl
  clean_loop-fresh k ((id, w) ∷ rest) m n h = elim (Bool-cases (is_healthy now w)) [
    | inl e ↦
        rw (clean_loop_keep id w rest m n e) (clean_loop-fresh k rest m n (λ v i. h v (inr i)))
    | inr e ↦
        let apart : id ≢ k =
          λ q. let held : is_healthy now w ≡ true = h w (inl (ap (λ j. (j, w)) (sym q))) in cc in
        rw (clean_loop_drop id w rest m n e) (
          clean_loop-fresh k rest (discard id m) (suc n) (λ v i. h v (inr i))
          ∙ ground (arith, lookup-discard id k m, eq_iff id k))
  ]

  clean_loop-Distinct : (xs m : Workers F) (n : ℕ) → Distinct m → Distinct (clean_loop now xs m n).0
  unfolding clean_loop
  clean_loop-Distinct [] m n d = d
  clean_loop-Distinct ((id, w) ∷ rest) m n d = elim (Bool-cases (is_healthy now w)) [
    | inl e ↦ rw (clean_loop_keep id w rest m n e) (clean_loop-Distinct rest m n d)
    | inr e ↦
        rw (clean_loop_drop id w rest m n e)
          (clean_loop-Distinct rest (discard id m) (suc n) (discard-Distinct id m d))
  ]

  -- What a cleaning leaves of an entry.
  abbrev pub if_fresh : Option (WorkerHeartbeat F) → Option (WorkerHeartbeat F)
  if_fresh none = none
  if_fresh (some w) = if is_healthy now w then some w else none

  module _ (visit : Order F) (order : IsOrder visit) (s : WorkerHeartbeatStore F) where
    get-clean_stale :
        (k : String)
        → Distinct s.workers
        → (o : Option (WorkerHeartbeat F)) → get k s ≡ o
        → get k (clean_stale visit now s).0 ≡ if_fresh o
    unfolding clean_stale get
    get-clean_stale k d none e = clean_loop-none k (visit s.workers) s.workers 0 e
    get-clean_stale k d (some w) e = elim (Bool-cases (is_healthy now w)) [
      | inr old ↦ rw old (
          clean_loop-stale k w (visit s.workers) s.workers 0
            (perm-In (k, w) (Permᴰ.symm (order.rearranges s.workers)) (lookup-In k w s.workers e))
            old)
      | inl fresh ↦ rw fresh (
          clean_loop-fresh k (visit s.workers) s.workers 0 (λ v i.
            let held = In-lookup k v s.workers d (perm-In (k, v) (order.rearranges s.workers) i) in
            let same : v ≡ w = cc in rw same fresh)
          ∙ e)
    ]

    -- On a map with one entry for each id, whatever the order of the walk: after `CleanStale` each
    -- id has the heartbeat that it had, if that is healthy, and none otherwise; the number returned
    -- is that of the stale entries; and the map still has one entry for each id.
    pub clean_stale_lem :
        Distinct s.workers
        → ((k : String) → get k (clean_stale visit now s).0 ≡ if_fresh (get k s))
          × ((clean_stale visit now s).1 ≡ count_if stale s.workers)
          × Distinct (clean_stale visit now s).0.workers
    unfolding clean_stale
    clean_stale_lem d = (
      λ k. get-clean_stale k d (get k s) refl,
      clean_loop-count (visit s.workers) s.workers 0
          ∙ omega (arith, count_if-perm stale (order.rearranges s.workers)),
      clean_loop-Distinct (visit s.workers) s.workers 0 d,
    )

    count_loop_lem :
        (xs : Workers F) (n : ℕ) → count_loop now xs n + count_if stale xs ≡ n + length xs
    unfolding count_loop
    count_loop_lem [] n = omega arith
    count_loop_lem ((id, w) ∷ rest) n = elim (Bool-cases (is_healthy now w)) [
      | inl e ↦ rw e (omega (arith, count_loop_lem rest (suc n)))
      | inr e ↦ rw e (omega (arith, count_loop_lem rest n))
    ]

    -- Whatever the orders of the two walks, the healthy workers that `CountHealthy` counts and the
    -- stale ones that `CleanStale` removes at that time are together the workers that `Count`
    -- counts.
    pub count_healthy-clean_stale :
        (visit' : Order F)
        → IsOrder visit'
        → count_healthy visit' now s + (clean_stale visit now s).1 ≡ count s
    unfolding count_healthy count clean_stale
    count_healthy-clean_stale visit' order' = omega (
      arith,
      count_loop_lem (visit' s.workers) 0,
      clean_loop-count (visit s.workers) s.workers 0,
      count_if-perm stale (order.rearranges s.workers),
      count_if-perm stale (order'.rearranges s.workers),
      perm-length (order'.rearranges s.workers),
    )
