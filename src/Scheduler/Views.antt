-- ===== src/Scheduler/Views.antt =====
-- internal/scheduler/scheduler.go and heartbeat_store.go: the listings of healthy workers, with the
-- order forgotten in which a walk of the map meets them.
use mathlib.Core.List.{Permᴰ}
use mathlib.Core.List.Permᴰ
use mathlib.Core.Quot
use mathlib.Core.Quot.{Quot}
use nimbus_run_a_self_hosted.Prelude.{
  ◌≡◌, refl, sym, ap, ◌∙◌, Bool, Bool-cases, inl, inr, List, [], ◌∷◌, select, All, if◌then◌else◌,
}
use nimbus_run_a_self_hosted.Prelude.Int.{pos, ◌≤ℤ◌, InInt64}
use nimbus_run_a_self_hosted.Platform.Data.{Time}
use nimbus_run_a_self_hosted.Platform.Float.{Float64}
use nimbus_run_a_self_hosted.Queue.Types.{WorkerHeartbeat}
use nimbus_run_a_self_hosted.Queue.Heartbeat.{is_healthy}
use nimbus_run_a_self_hosted.Queue.Freshness.{fresh, is_healthy-fresh}
use nimbus_run_a_self_hosted.Scheduler.Store.{
  Workers, Order, beats, healthy_beats, WorkerHeartbeatStore, list_healthy,
}
use nimbus_run_a_self_hosted.Scheduler.{Scheduler, get_worker_stats}
use nimbus_run_a_self_hosted.Scheduler.Choice.{IsOrder}

-- A list with the order of its elements forgotten.
abbrev pub Bag : Type 0 → Type 0
Bag A = Quot (λ (xs ys : List A). Permᴰ xs ys)

select_perm :
    {A : Type 0} (p : A → Bool) {xs ys : List A} → Permᴰ xs ys → Permᴰ (select p xs) (select p ys)
select_perm p Permᴰ.nil = Permᴰ.nil
select_perm p (Permᴰ.cons {a = a} {b = b} e d) = elim (Bool-cases (p a)) [
  | inl yes_a ↦ rw (yes_a, sym (ap p e) ∙ yes_a) (Permᴰ.cons e (select_perm p d))
  | inr no_a ↦ rw (no_a, sym (ap p e) ∙ no_a) (select_perm p d)
]
select_perm p (Permᴰ.swap {a = a} {b = b} {a' = a'} {b' = b'} e g) = elim (Bool-cases (p a)) [
  | inl yes_a ↦ elim (Bool-cases (p b)) [
    | inl yes_b ↦ rw (yes_a, yes_b, sym (ap p e) ∙ yes_a, sym (ap p g) ∙ yes_b) (Permᴰ.swap e g)
    | inr no_b ↦
        rw (yes_a, no_b, sym (ap p e) ∙ yes_a, sym (ap p g) ∙ no_b) (Permᴰ.cons e (Permᴰ.refl _))
  ]
  | inr no_a ↦ elim (Bool-cases (p b)) [
    | inl yes_b ↦
        rw (no_a, yes_b, sym (ap p e) ∙ no_a, sym (ap p g) ∙ yes_b) (Permᴰ.cons g (Permᴰ.refl _))
    | inr no_b ↦ rw (no_a, no_b, sym (ap p e) ∙ no_a, sym (ap p g) ∙ no_b) (Permᴰ.refl _)
  ]
]
select_perm p (Permᴰ.trans d d') = Permᴰ.trans (select_perm p d) (select_perm p d')

-- The timestamps of the heartbeats are in an int64.
abbrev pub Stamped : {F : Type 0} → Workers F → Type 0
Stamped m = All (λ e. InInt64 e.1.timestamp) m

-- The heartbeats of a map whose timestamps are at most 15 seconds old, in no order.
abbrev pub healthy_view : {F : Type 0} → Time → Workers F → Bag (WorkerHeartbeat F)
healthy_view now m = Quot.mk (select (fresh now) (beats m))

healthy_beats-fresh :
    {F : Type 0} (now : Time) (m : Workers F)
    → pos 0 ≤ℤ now
    → Stamped m
    → healthy_beats now m ≡ select (fresh now) (beats m)
unfolding healthy_beats
healthy_beats-fresh now [] clock stamped = refl
healthy_beats-fresh now ((id, w) ∷ rest) clock stamped =
    let same = is_healthy-fresh now w clock stamped.0 in
    let later = healthy_beats-fresh now rest clock stamped.1 in
    rw (same) (ap (λ ws. if fresh now w then w ∷ ws else ws) later)

healthy_view_order :
    {F : Type 0} (visit : Order F) (order : IsOrder visit) (now : Time) (m : Workers F)
    → pos 0 ≤ℤ now
    → Stamped m
    → Quot.mk (healthy_beats now (visit m)) ≡ healthy_view now m
unfolding healthy_beats
healthy_view_order visit order now m clock stamped =
    Quot.sound (select_perm (is_healthy now) (Permᴰ.map (λ e. e.1) (order.rearranges m)))
    ∙ ap Quot.mk (healthy_beats-fresh now m clock stamped)

-- On a clock past 1970, `GetWorkerStats` of a scheduler and `ListHealthy` of a store are one function
-- of the map once the order of the result is forgotten, in whatever order the map is walked: the bag of
-- its heartbeats that are at most 15 seconds old and whose timestamps do not wrap around, each as often
-- as the map holds it.
pub get_worker_stats_view :
    (f : Float64) (visit : Order f.Float) (order : IsOrder visit) (now : Time) (s : Scheduler f)
    (store : WorkerHeartbeatStore f.Float)
    → pos 0 ≤ℤ now
    → Stamped s.workers
    → Stamped store.workers
    → (Quot.mk (get_worker_stats f visit now s) ≡ healthy_view now s.workers)
      × (Quot.mk (list_healthy visit now store) ≡ healthy_view now store.workers)
unfolding get_worker_stats list_healthy
get_worker_stats_view f visit order now s store clock stamped stamped' = (
  healthy_view_order visit order now s.workers clock stamped,
  healthy_view_order visit order now store.workers clock stamped',
)
