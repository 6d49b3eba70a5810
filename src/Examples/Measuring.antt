-- ===== src/Examples/Measuring.antt =====
-- The properties of the metrics with a registry in memory.
use nimbus_run_a_self_hosted.Prelude.{
  String, ◌≡◌, refl, Bool, true, false, ◌&&◌, ◌||◌, List, [], ◌∷◌, arith, eq_iff, str_eq,
  if◌then◌else◌,
}
use nimbus_run_a_self_hosted.Prelude.Exec.{ok}
use nimbus_run_a_self_hosted.Prelude.Int.{ℤ, pos, negsuc, ◌+ℤ◌, ◌-ℤ◌}
use nimbus_run_a_self_hosted.Platform.Prometheus.{
  Change, inc, dec, set, observe, Prometheus, IsPrometheus, same_labels,
}
use nimbus_run_a_self_hosted.Observability.Counts.{Report, report_all, report_all-zero}
use nimbus_run_a_self_hosted.Examples.Tables.{whole}

record Registry : Type 0 where
  pub known : String → Bool
  pub value : String → List String → ℤ

abbrev step : Change whole → ℤ → ℤ
step inc v = v +ℤ pos 1
step dec v = v +ℤ negsuc 0
step (set x) v = pos x
step (observe x) v = v

abbrev changed : String → List String → Change whole → Registry → Registry
changed name ls c s = record s {
  value = λ other ks.
      if str_eq name other && same_labels ls ks
      then step c (s.value other ks)
      else s.value other ks;
}

abbrev registry : Prometheus whole
registry = record {
  State = Registry;
  register = λ d s. (ok tt, record s { known = λ name. str_eq d.name name || s.known name });
  change = λ d ls c s. (ok tt, changed d.name ls c s);
  registered = λ s name. s.known name;
  value = λ s name ls. s.value name ls;
  def_buckets = [];
}

same_labels_refl : (ls : List String) → same_labels ls ls ≡ true
same_labels_refl [] = refl
same_labels_refl (l ∷ ls) = ground (arith, eq_iff l l, same_labels_refl ls)

same_series : (name : String) (ls : List String) → (str_eq name name && same_labels ls ls) ≡ true
same_series name ls = ground (arith, eq_iff name name, same_labels_refl ls)

registry-IsPrometheus : IsPrometheus registry
registry-IsPrometheus = record {
  register_ok = λ d s fresh. refl;
  register_names = λ d s name. refl;
  change_ok = λ d ls c s n. refl;
  inc_value = λ d ls s n h. rw (same_series d.name ls) refl;
  dec_value = λ d ls s n h. rw (same_series d.name ls) refl;
  change_other = λ d ls c s name ks other. rw other refl;
}

abbrev fresh : Registry
fresh = record { known = λ name. false; value = λ name ls. pos 0 }

abbrev digits : ℤ → String
digits n = "200"

abbrev heartbeat : Bool → Report whole
heartbeat healthy = record {
  worker_id = "w1";
  cpu = 0;
  mem = 0;
  running_tasks = pos 0;
  healthy = healthy;
}

-- Three healthy heartbeats of one worker, and an unhealthy one.
abbrev heartbeats : List (Report whole)
heartbeats = heartbeat true ∷ heartbeat true ∷ heartbeat false ∷ heartbeat true ∷ []

report_all-zero_example :
    ((report_all whole registry registry-IsPrometheus digits heartbeats fresh).0 ≡ ok tt)
    × (registry.value
          (report_all whole registry registry-IsPrometheus digits heartbeats fresh).1
          "nimbusrun_worker_count"
          ("healthy" ∷ [])
        ≡ pos 3 -ℤ pos 1)
    × (registry.value
          (report_all whole registry registry-IsPrometheus digits heartbeats fresh).1
          "nimbusrun_worker_count"
          ("unhealthy" ∷ [])
        ≡ pos 1 -ℤ pos 3)
report_all-zero_example =
    report_all-zero whole registry registry-IsPrometheus digits heartbeats fresh (ground arith) refl
      refl
