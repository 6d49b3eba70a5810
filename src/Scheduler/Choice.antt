-- ===== src/Scheduler/Choice.antt =====
-- internal/scheduler/scheduler.go: which worker `selectWorker` takes.
use mathlib.Core.List.{Permᴰ}
use mathlib.Core.List.Permᴰ
use nimbus_run_a_self_hosted.Prelude.{
  ◌∙◌, ◌≡◌, ◌⊎◌, ◌↔◌, refl, sym, subst, inl, inr, true, false, none, some, List, [], ◌∷◌, arith,
  Bool-cases, All,
}
use nimbus_run_a_self_hosted.Prelude.Members.{
  In, In-select, select-In, In-All, perm-In, In-map, In-unmap,
}
use nimbus_run_a_self_hosted.Platform.Data.{Time}
use nimbus_run_a_self_hosted.Platform.Float.{Float64, IsFloat64}
use nimbus_run_a_self_hosted.Queue.Types.{WorkerHeartbeat}
use nimbus_run_a_self_hosted.Queue.Heartbeat.{calculate_load, is_healthy}
use nimbus_run_a_self_hosted.Scheduler.Store.{Workers, Order, beats, healthy_beats}
use nimbus_run_a_self_hosted.Scheduler.{lowest, select_lowest_load_worker, Scheduler, select_worker}

-- A walk of a Go map visits every entry once, in some order.
pub record IsOrder {F : Type 0} (visit : Order F) : Type 0 where
  pub rearranges : (m : Workers F) → Permᴰ (visit m) m

pub perm_symm : {A : Type 0} {xs ys : List A} → Permᴰ xs ys → Permᴰ ys xs
perm_symm = Permᴰ.symm

empty_of : {A : Type 0} (xs : List A) → ((x : A) → ¬ In x xs) → xs ≡ []
empty_of [] h = refl
empty_of (x ∷ xs) h = absurd (h x (inl refl))

module _ (f : Float64) (laws : IsFloat64 f) where
  open f use {Float, lt}

  abbrev pub load : WorkerHeartbeat Float → Float
  load = calculate_load f

  lowest_le_first :
      (best : WorkerHeartbeat Float) (rest : List (WorkerHeartbeat Float))
      → let l = load (lowest f best (load best) rest) in (l ≡ load best) ⊎ (lt l (load best) ≡ true)
  unfolding lowest
  lowest_le_first best [] = inl refl
  lowest_le_first best (w ∷ rest) = elim (Bool-cases (lt (load w) (load best))) [
    | inl e ↦ ground (
      arith,
      e,
      lowest_le_first w rest,
      laws.lt_trans (load (lowest f w (load w) rest)) (load w) (load best),
    )
    | inr e ↦ ground (arith, e, lowest_le_first best rest)
  ]

  lowest_lower :
      (best w : WorkerHeartbeat Float) (rest : List (WorkerHeartbeat Float))
      → lt (load w) (load best) ≡ true
      → lowest f best (load best) (w ∷ rest) ≡ lowest f w (load w) rest
  unfolding lowest
  lowest_lower best w rest e = rw e

  lowest_keep :
      (best w : WorkerHeartbeat Float) (rest : List (WorkerHeartbeat Float))
      → lt (load w) (load best) ≡ false
      → lowest f best (load best) (w ∷ rest) ≡ lowest f best (load best) rest
  unfolding lowest
  lowest_keep best w rest e = rw e

  -- Nothing in the list has a load below that of the choice.
  lowest_least :
      (best : WorkerHeartbeat Float) (rest : List (WorkerHeartbeat Float))
      (x : WorkerHeartbeat Float)
      → In x (best ∷ rest)
      → lt (load x) (load (lowest f best (load best) rest)) ≡ false
  unfolding lowest
  lowest_least best [] x (inl e) = rw e (laws.lt_irrefl (load best))
  lowest_least best [] x (inr h) = absurd h
  lowest_least best (w ∷ rest) x h = elim (Bool-cases (lt (load w) (load best))) [
    | inl e ↦ rw (lowest_lower best w rest e) (
        ground (
          arith,
          e,
          h,
          lowest_least w rest x,
          lowest_least w rest w (inl refl),
          laws.lt_trans (load w) (load best) (load (lowest f w (load w) rest)),
        ))
    | inr e ↦ rw (lowest_keep best w rest e) (
        ground (
          arith,
          e,
          h,
          lowest_least best rest x,
          lowest_le_first best rest,
          laws.lt_trans (load w) (load (lowest f best (load best) rest)) (load best),
        ))
  ]

  In-skip :
      (x a w : WorkerHeartbeat Float) (rest : List (WorkerHeartbeat Float))
      → In x (a ∷ rest)
      → In x (a ∷ w ∷ rest)
  In-skip x a w rest (inl e) = inl e
  In-skip x a w rest (inr h) = inr (inr h)

  lowest-In :
      (best : WorkerHeartbeat Float) (rest : List (WorkerHeartbeat Float))
      → In (lowest f best (load best) rest) (best ∷ rest)
  unfolding lowest
  lowest-In best [] = inl refl
  lowest-In best (w ∷ rest) = elim (Bool-cases (lt (load w) (load best))) [
    | inl e ↦
        subst (λ v. In v (best ∷ w ∷ rest)) (sym (lowest_lower best w rest e))
          (inr (lowest-In w rest))
    | inr e ↦
        subst (λ v. In v (best ∷ w ∷ rest)) (sym (lowest_keep best w rest e))
          (In-skip _ best w rest (lowest-In best rest))
  ]

  chosen :
      (cs : List (WorkerHeartbeat Float)) (w : WorkerHeartbeat Float)
      → select_lowest_load_worker f cs ≡ some w
      → In w cs × ((x : WorkerHeartbeat Float) → In x cs → lt (load x) (load w) ≡ false)
  unfolding select_lowest_load_worker
  chosen [] w e = cc
  chosen (c ∷ rest) w e =
      let same : lowest f c (load c) rest ≡ w = cc in
      (
        subst (λ v. In v (c ∷ rest)) same (lowest-In c rest),
        λ x h. subst (λ v. lt (load x) (load v) ≡ false) same (lowest_least c rest x h),
      )

  not_chosen :
      (cs : List (WorkerHeartbeat Float))
      → (select_lowest_load_worker f cs ≡ none) ↔ ((x : WorkerHeartbeat Float) → ¬ In x cs)
  unfolding select_lowest_load_worker
  not_chosen [] = (λ e x h. h, λ h. refl)
  not_chosen (c ∷ rest) = (λ e. cc, λ h. absurd (h c (inl refl)))

  module _ (visit : Order Float) (order : IsOrder visit) where
    -- The candidates are the healthy workers of the map, in the order of the walk.
    candidates_iff :
        (now : Time) (m : Workers Float) (w : WorkerHeartbeat Float)
        → In w (healthy_beats now (visit m)) ↔ In w (healthy_beats now m)
    unfolding healthy_beats
    candidates_iff now m w = (
      λ h.
          let (h', ok) = In-select (is_healthy now) w _ h in
          let (e, e', same) = In-unmap _ w (visit m) h' in
          select-In (is_healthy now) w _
            (subst (λ v. In v (beats m)) (sym same)
              (In-map _ e m (perm-In e (order.rearranges m) e')))
            ok,
      λ h.
          let (h', ok) = In-select (is_healthy now) w _ h in
          let (e, e', same) = In-unmap _ w m h' in
          select-In (is_healthy now) w _
            (subst (λ v. In v (beats (visit m))) (sym same)
              (In-map _ e (visit m) (perm-In e (perm_symm (order.rearranges m)) e')))
            ok,
    )

    -- Guarded by the test for an empty list, the policy is called on the candidates.
    select_worker_lem :
        (now : Time) (s : Scheduler f) (cs : List (WorkerHeartbeat Float))
        → s.select_func ≡ select_lowest_load_worker f
        → healthy_beats now (visit s.workers) ≡ cs
        → select_worker f visit now s ≡ select_lowest_load_worker f cs
    unfolding select_worker select_lowest_load_worker
    select_worker_lem now s [] default e = rw (e, select_worker)
    select_worker_lem now s (c ∷ rest) default e = rw (e, select_worker) (rw default)

    -- With the default policy, whatever the order of the walk over the map: a worker that
    -- `selectWorker` takes is one of the healthy workers of the map, and none of these has a lower
    -- load.
    pub select_worker_least :
        (now : Time) (s : Scheduler f) (w : WorkerHeartbeat Float)
        → s.select_func ≡ select_lowest_load_worker f
        → select_worker f visit now s ≡ some w
        → In w (healthy_beats now s.workers)
          × All (λ x. lt (load x) (load w) ≡ false) (healthy_beats now s.workers)
    select_worker_least now s w default e =
        let cs = healthy_beats now (visit s.workers) in
        let lem = select_worker_lem now s cs default refl in
        let member = candidates_iff now s.workers in
        let (found, least) = chosen cs w (sym lem ∙ e) in
        ((member w).0 found, In-All _ _ (λ x h. least x ((member x).1 h)))

    -- With the default policy, whatever the order of the walk over the map, `selectWorker` takes no
    -- worker exactly when the map has no healthy worker.
    pub select_worker-none :
        (now : Time) (s : Scheduler f)
        → s.select_func ≡ select_lowest_load_worker f
        → (select_worker f visit now s ≡ none) ↔ (healthy_beats now s.workers ≡ [])
    select_worker-none now s default =
        let cs = healthy_beats now (visit s.workers) in
        let lem = select_worker_lem now s cs default refl in
        let member = candidates_iff now s.workers in
        (
          λ e. empty_of _ (λ x h. (not_chosen cs).0 (sym lem ∙ e) x ((member x).1 h)),
          λ e. lem ∙ (not_chosen cs).1 (λ x h. subst (In x) e ((member x).0 h)),
        )
