-- ===== src/Observability/Registration.antt =====
-- internal/observability/metrics.go: registering the metrics, and recording with their labels.
use nimbus_run_a_self_hosted.Prelude.{
  String, ◌≡◌, refl, Bool, true, false, not, ◌&&◌, List, [], ◌∷◌, arith, str_eq, eq_iff,
  if◌then◌else◌,
}
use nimbus_run_a_self_hosted.Prelude.Exec.{ok, Exec, pure, ◌>>◌}
use nimbus_run_a_self_hosted.Prelude.Int.{ℤ, pos, ltb_ℤ, quot_ℤ}
use nimbus_run_a_self_hosted.Platform.Float.{Float64}
use nimbus_run_a_self_hosted.Platform.Prometheus.{Desc, Prometheus, IsPrometheus, inc, observe}
use nimbus_run_a_self_hosted.Observability.{
  metrics, registered_metrics, register_all, new_metrics, record_invocation, record_queue_latency,
  record_build, record_auth_attempt, record_http_request, http_middleware, seconds,
}

-- A call of one of the methods that record, besides `UpdateWorker`.
pub data Call (f : Float64) : Type 0 where
  invocation : String → String → ℤ → Bool → String → Call f
  queue_latency : String → ℤ → Call f
  build : String → ℤ → Bool → String → Call f
  auth_attempt : Bool → Call f
  http_request : String → String → ℤ → ℤ → Call f

module _ (f : Float64) (p : Prometheus f) (format_int : ℤ → String) where
  unfoldable pub perform : Call f → Exec p.State (Unit {0})
  perform (invocation function_id status duration_ms cold_start error_type) =
      record_invocation f p format_int (metrics f p format_int) function_id status duration_ms
        cold_start error_type
  perform (queue_latency function_id latency_ms) =
      record_queue_latency f p format_int (metrics f p format_int) function_id latency_ms
  perform (build function_id duration success reason) =
      record_build f p format_int (metrics f p format_int) function_id duration success reason
  perform (auth_attempt success) =
      record_auth_attempt f p format_int (metrics f p format_int) success
  perform (http_request method path status duration) =
      http_middleware f p format_int (metrics f p format_int) method path status duration

module _ (f : Float64) (p : Prometheus f) (laws : IsPrometheus p) (format_int : ℤ → String) where
  abbrev absent : String → List (Desc f) → Bool
  absent name [] = true
  absent name (d ∷ ds) = not (str_eq d.name name) && absent name ds

  abbrev distinct : List (Desc f) → Bool
  distinct [] = true
  distinct (d ∷ ds) = absent d.name ds && distinct ds

  abbrev free : p.State → List (Desc f) → Bool
  free s [] = true
  free s (d ∷ ds) = not (p.registered s d.name) && free s ds

  free_after :
      (d : Desc f) (ds : List (Desc f)) (s : p.State)
      → absent d.name ds ≡ true
      → free s ds ≡ true
      → free (p.register d s).1 ds ≡ true
  free_after d [] s a e = refl
  free_after d (x ∷ xs) s a e = ground (
    arith,
    laws.register_names d s x.name,
    free_after d xs s,
    eq_iff x.name d.name,
    eq_iff d.name x.name,
  )

  register_all_lem :
      (ds : List (Desc f)) (s : p.State)
      → distinct ds ≡ true
      → free s ds ≡ true
      → (register_all f p format_int ds s).0 ≡ ok tt
  unfolding register_all
  register_all_lem [] s d e = refl
  register_all_lem (x ∷ xs) s d e = rw (laws.register_ok x s (ground (arith, e))) (
      register_all_lem xs (p.register x s).1 (ground (arith, d))
        (free_after x xs s (ground (arith, d)) (ground (arith, e))))

  free_empty :
      (ds : List (Desc f)) (s : p.State)
      → ((name : String) → p.registered s name ≡ false)
      → free s ds ≡ true
  free_empty [] s empty = refl
  free_empty (d ∷ ds) s empty = ground (arith, empty d.name, free_empty ds s empty)

  all_distinct : distinct (registered_metrics f p format_int) ≡ true
  unfolding registered_metrics metrics
  all_distinct = ground arith

  -- An action that never panics.
  abbrev Quiet : Exec p.State (Unit {0}) → Type 0
  Quiet m = (s : p.State) → (m s).0 ≡ ok tt

  seq_Quiet : (m n : Exec p.State (Unit {0})) → Quiet m → Quiet n → Quiet (m >> n)
  seq_Quiet m n h h' s = rw (h s) (h' (m s).1)

  when_Quiet : (b : Bool) (m : Exec p.State (Unit {0})) → Quiet m → Quiet (if b then m else pure tt)
  when_Quiet true m h s = h s
  when_Quiet false m h s = refl

  recording_Quiet :
      (function_id status : String) (duration_ms : ℤ) (cold_start : Bool) (error_type : String)
      → Quiet (
          record_invocation f p format_int
            (metrics f p format_int)
            function_id
            status
            duration_ms
            cold_start
            error_type)
  unfolding record_invocation metrics
  recording_Quiet function_id status duration_ms cold_start error_type =
      let m = metrics f p format_int in
      let count = p.change m.invocations_total (function_id ∷ status ∷ []) inc in
      let took =
        p.change m.invocation_duration (function_id ∷ []) (observe (f.of_int duration_ms)) in
      let cold = p.change m.cold_start_total [] inc in
      let failed = p.change m.invocation_errors (function_id ∷ error_type ∷ []) inc in
      let took_if = if ltb_ℤ (pos 0) duration_ms then took else pure tt in
      let cold_if = if cold_start then cold else pure tt in
      let failed_if = if str_eq status "FAILED" then failed else pure tt in
      seq_Quiet count (took_if >> (cold_if >> failed_if)) (λ s. laws.change_ok _ _ _ s refl)
        (seq_Quiet took_if (cold_if >> failed_if)
          (when_Quiet (ltb_ℤ (pos 0) duration_ms) took (λ s. laws.change_ok _ _ _ s refl))
          (seq_Quiet cold_if failed_if
            (when_Quiet cold_start cold (λ s. laws.change_ok _ _ _ s refl))
            (when_Quiet (str_eq status "FAILED") failed (λ s. laws.change_ok _ _ _ s refl))))

  perform-Quiet : (call : Call f) → Quiet (perform f p format_int call)
  unfolding perform record_queue_latency record_build record_auth_attempt record_http_request
      http_middleware metrics
  perform-Quiet (invocation function_id status duration_ms cold_start error_type) s =
      recording_Quiet function_id status duration_ms cold_start error_type s
  perform-Quiet (queue_latency function_id latency_ms) s = laws.change_ok _ _ _ s refl
  perform-Quiet (build function_id duration true reason) s =
      let took = observe (seconds f p format_int (metrics f p format_int) duration) in
      seq_Quiet (p.change (metrics f p format_int).build_duration (function_id ∷ []) took)
        (p.change (metrics f p format_int).build_success (function_id ∷ []) inc)
        (λ s. laws.change_ok _ _ _ s refl) (λ s. laws.change_ok _ _ _ s refl) s
  perform-Quiet (build function_id duration false reason) s =
      let took = observe (seconds f p format_int (metrics f p format_int) duration) in
      seq_Quiet (p.change (metrics f p format_int).build_duration (function_id ∷ []) took)
        (p.change (metrics f p format_int).build_failure (function_id ∷ reason ∷ []) inc)
        (λ s. laws.change_ok _ _ _ s refl) (λ s. laws.change_ok _ _ _ s refl) s
  perform-Quiet (auth_attempt true) s = laws.change_ok _ _ _ s refl
  perform-Quiet (auth_attempt false) s = laws.change_ok _ _ _ s refl
  perform-Quiet (http_request method path status duration) s =
      let labels = method ∷ path ∷ format_int status ∷ [] in
      let took = observe (f.of_int (quot_ℤ duration 1000000)) in
      seq_Quiet (p.change (metrics f p format_int).http_requests_total labels inc)
        (p.change (metrics f p format_int).http_request_duration labels took)
        (λ s. laws.change_ok _ _ _ s refl) (λ s. laws.change_ok _ _ _ s refl) s

  -- On a registry that has no metric, `NewMetrics` registers all of its metrics without a panic, and
  -- every call of a method that records, other than `UpdateWorker`, gives each metric as many values
  -- as it has labels, and so does not panic either.
  pub new_metrics_lem :
      (s s' : p.State) (call : Call f)
      → ((name : String) → p.registered s name ≡ false)
      → ((new_metrics f p format_int s).0 ≡ ok (metrics f p format_int))
        × ((perform f p format_int call s').0 ≡ ok tt)
  unfolding new_metrics
  new_metrics_lem s s' call empty = (
    rw (register_all_lem (registered_metrics f p format_int) s all_distinct (free_empty _ s empty))
        refl,
    perform-Quiet call s',
  )
