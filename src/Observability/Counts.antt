-- ===== src/Observability/Counts.antt =====
-- internal/observability/metrics.go: the gauge of the workers by status.
use nimbus_run_a_self_hosted.Prelude.{
  ℕ, ◌^◌, ◌≤◌, String, ◌≡◌, refl, sym, ap, ◌∙◌, inl, inr, Bool-cases, Bool, true, false, List, [],
  ◌∷◌, length, arith, subst, str_eq, not,
}
use nimbus_run_a_self_hosted.Prelude.Members.{count_if}
use nimbus_run_a_self_hosted.Prelude.Exec.{ok, Exec, pure, ◌>>◌}
use nimbus_run_a_self_hosted.Prelude.Int.{ℤ, pos, negsuc, ◌+ℤ◌, ◌-ℤ◌}
use nimbus_run_a_self_hosted.Platform.Float.{Float64}
use nimbus_run_a_self_hosted.Platform.Prometheus.{Prometheus, IsPrometheus, IsExact, inc, dec, set}
use nimbus_run_a_self_hosted.Observability.Steps.{
  Room, Room-IsExact, Room-down, Room-up, add_zero, one_down, one_up, zero_add,
}
use nimbus_run_a_self_hosted.Observability.{Metrics, metrics, update_worker}

-- The arguments of a call of `UpdateWorker`.
pub record Report (f : Float64) : Type 0 where
  pub worker_id : String
  pub cpu : f.Float
  pub mem : f.Float
  pub running_tasks : ℤ
  pub healthy : Bool

module _ (f : Float64) (p : Prometheus f) (laws : IsPrometheus p) (format_int : ℤ → String) where
  abbrev m : Metrics f
  m = metrics f p format_int

  abbrev gauge_of : String → p.State → ℤ
  gauge_of status s = p.value s m.worker_count.name (status ∷ [])

  abbrev pub report : Report f → Exec p.State (Unit {0})
  report r = update_worker f p format_int m r.worker_id r.cpu r.mem r.running_tasks r.healthy

  abbrev shift : String → String → Exec p.State (Unit {0})
  shift a b = p.change m.worker_count (a ∷ []) inc >> p.change m.worker_count (b ∷ []) dec

  abbrev usage : Report f → Exec p.State (Unit {0})
  usage r =
      p.change m.worker_cpu_usage (r.worker_id ∷ []) (set r.cpu)
      >> (p.change m.worker_memory_usage (r.worker_id ∷ []) (set r.mem)
          >> p.change m.worker_running_tasks (r.worker_id ∷ []) (set (f.of_int r.running_tasks)))

  shift_lem :
      (a b : String) (s : p.State)
      → str_eq a b ≡ false
      → str_eq b a ≡ false
      → IsExact (gauge_of a s)
      → IsExact (gauge_of b s)
      → ((shift a b s).0 ≡ ok tt)
        × (gauge_of a (shift a b s).1 ≡ gauge_of a s +ℤ pos 1)
        × (gauge_of b (shift a b s).1 ≡ gauge_of b s +ℤ negsuc 0)
  unfolding metrics
  shift_lem a b s d d' h h' =
      let wc = m.worker_count in
      let s1 = (p.change wc (a ∷ []) inc s).1 in
      let first = laws.change_ok wc (a ∷ []) inc s refl in
      let same : gauge_of b s1 ≡ gauge_of b s =
        laws.change_other wc (a ∷ []) inc s wc.name (b ∷ []) (ground (arith, d)) in
      (
        rw first (laws.change_ok wc (b ∷ []) dec s1 refl),
        rw first (
            laws.change_other wc (b ∷ []) dec s1 wc.name (a ∷ []) (ground (arith, d'))
            ∙ laws.inc_value wc (a ∷ []) s refl h),
        rw first (
            laws.dec_value wc (b ∷ []) s1 refl (subst IsExact (sym same) h')
            ∙ ap (λ v. v +ℤ negsuc 0) same),
      )

  usage_lem :
      (r : Report f) (s : p.State) (status : String)
      → ((usage r s).0 ≡ ok tt) × (gauge_of status (usage r s).1 ≡ gauge_of status s)
  unfolding metrics
  usage_lem r s status =
      let ls = r.worker_id ∷ [] in
      let s1 = (p.change m.worker_cpu_usage ls (set r.cpu) s).1 in
      let s2 = (p.change m.worker_memory_usage ls (set r.mem) s1).1 in
      let c1 = laws.change_ok m.worker_cpu_usage ls (set r.cpu) s refl in
      let c2 = laws.change_ok m.worker_memory_usage ls (set r.mem) s1 refl in
      let tasks = set (f.of_int r.running_tasks) in
      let count = m.worker_count.name in
      (
        rw (c1, c2) (laws.change_ok m.worker_running_tasks ls tasks s2 refl),
        rw (c1, c2)
            (laws.change_other m.worker_running_tasks ls tasks s2 count (status ∷ []) refl
              ∙ (laws.change_other m.worker_memory_usage ls (set r.mem) s1 count (status ∷ []) refl
                  ∙ laws.change_other m.worker_cpu_usage ls (set r.cpu) s count (status ∷ [])
                      refl)),
      )

  -- One report of a worker, healthy or not.
  report_lem :
      (r : Report f) (s : p.State) (a b : String)
      → report r s ≡ (shift a b >> usage r) s
      → str_eq a b ≡ false
      → str_eq b a ≡ false
      → IsExact (gauge_of a s)
      → IsExact (gauge_of b s)
      → ((report r s).0 ≡ ok tt)
        × (gauge_of a (report r s).1 ≡ gauge_of a s +ℤ pos 1)
        × (gauge_of b (report r s).1 ≡ gauge_of b s +ℤ negsuc 0)
  report_lem r s a b run d d' h h' =
      let (done, up, down) = shift_lem a b s d d' h h' in
      let s' = (shift a b s).1 in
      (
        rw (run, done) (usage_lem r s' a).0,
        rw (run, done) ((usage_lem r s' a).1 ∙ up),
        rw (run, done) ((usage_lem r s' b).1 ∙ down),
      )

  healthy_lem :
      (r : Report f) (s : p.State)
      → r.healthy ≡ true
      → IsExact (gauge_of "healthy" s)
      → IsExact (gauge_of "unhealthy" s)
      → ((report r s).0 ≡ ok tt)
        × (gauge_of "healthy" (report r s).1 ≡ gauge_of "healthy" s +ℤ pos 1)
        × (gauge_of "unhealthy" (report r s).1 ≡ gauge_of "unhealthy" s +ℤ negsuc 0)
  unfolding update_worker
  healthy_lem r s well h u = report_lem r s "healthy" "unhealthy" (rw well refl) refl refl h u

  unhealthy_lem :
      (r : Report f) (s : p.State)
      → r.healthy ≡ false
      → IsExact (gauge_of "healthy" s)
      → IsExact (gauge_of "unhealthy" s)
      → ((report r s).0 ≡ ok tt)
        × (gauge_of "unhealthy" (report r s).1 ≡ gauge_of "unhealthy" s +ℤ pos 1)
        × (gauge_of "healthy" (report r s).1 ≡ gauge_of "healthy" s +ℤ negsuc 0)
  unfolding update_worker
  unhealthy_lem r s ill h u = report_lem r s "unhealthy" "healthy" (rw ill refl) refl refl u h

  -- The calls of `UpdateWorker` for a sequence of heartbeats.
  unfoldable pub report_all : List (Report f) → Exec p.State (Unit {0})
  report_all [] = pure tt
  report_all (r ∷ rs) = report r >> report_all rs

  abbrev pub up : List (Report f) → ℕ
  up = count_if λ r. r.healthy

  abbrev pub down : List (Report f) → ℕ
  down = count_if λ r. not r.healthy

  report_all_lem :
      (rs : List (Report f)) (s : p.State)
      → Room (length rs) (gauge_of "healthy" s)
      → Room (length rs) (gauge_of "unhealthy" s)
      → ((report_all rs s).0 ≡ ok tt)
        × (gauge_of "healthy" (report_all rs s).1
            ≡ gauge_of "healthy" s +ℤ (pos (up rs) -ℤ pos (down rs)))
        × (gauge_of "unhealthy" (report_all rs s).1
            ≡ gauge_of "unhealthy" s +ℤ (pos (down rs) -ℤ pos (up rs)))
  unfolding report_all
  report_all_lem [] s h u = (refl, add_zero _, add_zero _)
  report_all_lem (r ∷ rs) s h u = elim (Bool-cases r.healthy) [
    | inl well ↦
        let (done, rise, fall) =
          healthy_lem r s well (Room-IsExact (length rs) (gauge_of "healthy" s) h)
            (Room-IsExact (length rs) (gauge_of "unhealthy" s) u) in
        let (rest, v, v') =
          report_all_lem rs (report r s).1
            (subst (Room (length rs)) (sym rise) (Room-up (length rs) (gauge_of "healthy" s) h))
            (subst (Room (length rs)) (sym fall)
              (Room-down (length rs) (gauge_of "unhealthy" s) u)) in
        (
          rw done rest,
          rw done (
              v
              ∙ ap (λ x. x +ℤ (pos (up rs) -ℤ pos (down rs))) rise
              ∙ one_up (gauge_of "healthy" s) (up rs) (down rs) (up (r ∷ rs)) (down (r ∷ rs))
                  (rw well refl) (rw well refl)),
          rw done (
              v'
              ∙ ap (λ x. x +ℤ (pos (down rs) -ℤ pos (up rs))) fall
              ∙ one_down (gauge_of "unhealthy" s) (down rs) (up rs) (down (r ∷ rs)) (up (r ∷ rs))
                  (rw well refl) (rw well refl)),
        )
    | inr ill ↦
        let (done, rise, fall) =
          unhealthy_lem r s ill (Room-IsExact (length rs) (gauge_of "healthy" s) h)
            (Room-IsExact (length rs) (gauge_of "unhealthy" s) u) in
        let (rest, v, v') =
          report_all_lem rs (report r s).1
            (subst (Room (length rs)) (sym fall) (Room-down (length rs) (gauge_of "healthy" s) h))
            (subst (Room (length rs)) (sym rise)
              (Room-up (length rs) (gauge_of "unhealthy" s) u)) in
        (
          rw done rest,
          rw done (
              v
              ∙ ap (λ x. x +ℤ (pos (up rs) -ℤ pos (down rs))) fall
              ∙ one_down (gauge_of "healthy" s) (up rs) (down rs) (up (r ∷ rs)) (down (r ∷ rs))
                  (rw ill refl) (rw ill refl)),
          rw done (
              v'
              ∙ ap (λ x. x +ℤ (pos (down rs) -ℤ pos (up rs))) rise
              ∙ one_up (gauge_of "unhealthy" s) (down rs) (up rs) (down (r ∷ rs)) (up (r ∷ rs))
                  (rw ill refl) (rw ill refl)),
        )
  ]

  -- If both gauges of the workers are zero, then fewer than 2 ^ 53 heartbeats succeed, and leave the
  -- gauge of the healthy workers at the number of healthy heartbeats less that of the unhealthy ones,
  -- and the other gauge at the opposite: their sum is zero, whatever workers there are.
  pub report_all-zero :
      (rs : List (Report f)) (s : p.State)
      → length rs ≤ 2 ^ 53
      → p.value s "nimbusrun_worker_count" ("healthy" ∷ []) ≡ pos 0
      → p.value s "nimbusrun_worker_count" ("unhealthy" ∷ []) ≡ pos 0
      → ((report_all rs s).0 ≡ ok tt)
        × (p.value (report_all rs s).1 "nimbusrun_worker_count" ("healthy" ∷ [])
            ≡ pos (up rs) -ℤ pos (down rs))
        × (p.value (report_all rs s).1 "nimbusrun_worker_count" ("unhealthy" ∷ [])
            ≡ pos (down rs) -ℤ pos (up rs))
  unfolding metrics
  report_all-zero rs s n h u =
      let (done, v, v') =
        report_all_lem rs s (subst (Room (length rs)) (sym h) (omega arith))
          (subst (Room (length rs)) (sym u) (omega arith)) in
      (
        done,
        v ∙ ap (λ x. x +ℤ (pos (up rs) -ℤ pos (down rs))) h ∙ zero_add _,
        v' ∙ ap (λ x. x +ℤ (pos (down rs) -ℤ pos (up rs))) u ∙ zero_add _,
      )
