-- ===== src/Platform/Prometheus.antt =====
-- prometheus/client_golang: registering metrics, and changing the series of a metric.
use nimbus_run_a_self_hosted.Prelude.{
  ◌+◌, ◌^◌, ◌<◌, String, ◌≡◌, Bool, true, false, ◌&&◌, ◌||◌, List, [], ◌∷◌, length, str_eq,
}
use nimbus_run_a_self_hosted.Prelude.Exec.{ok, Exec}
use nimbus_run_a_self_hosted.Prelude.Int.{ℤ, pos, negsuc, above, below, ◌+ℤ◌}
use nimbus_run_a_self_hosted.Platform.Float.{Float64}

pub data Kind : Type 0 where
  counter gauge histogram : Kind

-- A metric as `promauto` is given it; a metric without labels has none.
pub record Desc (f : Float64) : Type 0 where
  pub kind : Kind
  pub name : String
  pub help : String
  pub buckets : List f.Float
  pub labels : List String

-- What is done to one series.
pub data Change (f : Float64) : Type 0 where
  inc dec : Change f
  set observe : f.Float → Change f

pub record Prometheus (f : Float64) : Type 1 where
  pub State : Type 0
  -- `promauto` panics if the registry has the name.
  pub register : Desc f → Exec State (Unit {0})
  -- `WithLabelValues` panics if there are not as many values as labels.
  pub change : Desc f → List String → Change f → Exec State (Unit {0})
  pub registered : State → String → Bool
  -- The value of a gauge that holds an integer.
  pub value : State → String → List String → ℤ
  pub def_buckets : List f.Float

abbrev pub same_labels : List String → List String → Bool
same_labels [] [] = true
same_labels [] (k ∷ ks) = false
same_labels (j ∷ js) [] = false
same_labels (j ∷ js) (k ∷ ks) = str_eq j k && same_labels js ks

-- Integers that a float64 adds one to exactly.
abbrev pub IsExact : ℤ → Type 0
IsExact v = above v + below v < 2 ^ 53

pub record IsPrometheus {f : Float64} (p : Prometheus f) : Type 0 where
  pub register_ok :
      (d : Desc f) (s : p.State) → p.registered s d.name ≡ false → (p.register d s).0 ≡ ok tt
  pub register_names :
      (d : Desc f) (s : p.State) (name : String)
      → p.registered (p.register d s).1 name ≡ (str_eq d.name name || p.registered s name)
  pub change_ok :
      (d : Desc f) (ls : List String) (c : Change f) (s : p.State)
      → length ls ≡ length d.labels
      → (p.change d ls c s).0 ≡ ok tt
  pub inc_value :
      (d : Desc f) (ls : List String) (s : p.State)
      → length ls ≡ length d.labels
      → IsExact (p.value s d.name ls)
      → p.value (p.change d ls inc s).1 d.name ls ≡ p.value s d.name ls +ℤ pos 1
  pub dec_value :
      (d : Desc f) (ls : List String) (s : p.State)
      → length ls ≡ length d.labels
      → IsExact (p.value s d.name ls)
      → p.value (p.change d ls dec s).1 d.name ls ≡ p.value s d.name ls +ℤ negsuc 0
  -- The other series keep their values.
  pub change_other :
      (d : Desc f) (ls : List String) (c : Change f) (s : p.State) (name : String)
      (ks : List String)
      → (str_eq d.name name && same_labels ls ks) ≡ false
      → p.value (p.change d ls c s).1 name ks ≡ p.value s name ks
