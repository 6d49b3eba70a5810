-- ===== src/Observability.antt =====
-- internal/observability: the platform's metrics and its structured log.
pub mod Log
pub mod Steps
pub mod Counts
pub mod Registration
use nimbus_run_a_self_hosted.Prelude.{
  ℕ, ◌*◌, String, Bool, true, false, List, [], ◌∷◌, map, str_eq, if◌then◌else◌,
}
use nimbus_run_a_self_hosted.Prelude.Exec.{Result, ok, err, Exec, pure, ◌>>=◌, ◌>>◌}
use nimbus_run_a_self_hosted.Prelude.Int.{ℤ, pos, ltb_ℤ, quot_ℤ, rem_ℤ}
use nimbus_run_a_self_hosted.Platform.Data.{second}
use nimbus_run_a_self_hosted.Platform.Float.{Float64}
use nimbus_run_a_self_hosted.Platform.Prometheus.{
  Desc, counter, gauge, histogram, inc, dec, set, observe, Prometheus,
}

pub record Metrics (f : Float64) : Type 0 where
  pub invocations_total : Desc f
  pub invocation_duration : Desc f
  pub invocation_errors : Desc f
  pub cold_start_total : Desc f
  pub queue_depth : Desc f
  pub queue_latency : Desc f
  pub worker_count : Desc f
  pub worker_cpu_usage : Desc f
  pub worker_memory_usage : Desc f
  pub worker_running_tasks : Desc f
  pub build_duration : Desc f
  pub build_success : Desc f
  pub build_failure : Desc f
  pub auth_attempts : Desc f
  pub http_request_duration : Desc f
  pub http_requests_total : Desc f

module _ (f : Float64) (p : Prometheus f) (format_int : ℤ → String) where
  abbrev integers : List ℕ → List f.Float
  integers = map λ n. f.of_int (pos n)

  unfoldable pub metrics : Metrics f
  metrics = record {
    invocations_total = record {
      kind = counter;
      name = "nimbusrun_invocations_total";
      help = "Total number of function invocations";
      buckets = [];
      labels = "function_id" ∷ "status" ∷ [];
    };
    invocation_duration = record {
      kind = histogram;
      name = "nimbusrun_invocation_duration_ms";
      help = "Invocation duration in milliseconds";
      buckets =
          integers (10 ∷ 50 ∷ 100 ∷ 250 ∷ 500 ∷ 1000 ∷ 2500 ∷ 5000 ∷ 10000 ∷ 30000 ∷ 60000 ∷ []);
      labels = "function_id" ∷ [];
    };
    invocation_errors = record {
      kind = counter;
      name = "nimbusrun_invocation_errors_total";
      help = "Total number of invocation errors";
      buckets = [];
      labels = "function_id" ∷ "error_type" ∷ [];
    };
    cold_start_total = record {
      kind = counter;
      name = "nimbusrun_cold_starts_total";
      help = "Total number of cold starts";
      buckets = [];
      labels = [];
    };
    queue_depth = record {
      kind = gauge;
      name = "nimbusrun_queue_depth";
      help = "Current queue depth";
      buckets = [];
      labels = [];
    };
    queue_latency = record {
      kind = histogram;
      name = "nimbusrun_queue_latency_ms";
      help = "Time jobs spend waiting in the queue";
      buckets = integers (1 ∷ 5 ∷ 10 ∷ 50 ∷ 100 ∷ 500 ∷ 1000 ∷ 5000 ∷ []);
      labels = "function_id" ∷ [];
    };
    worker_count = record {
      kind = gauge;
      name = "nimbusrun_worker_count";
      help = "Number of workers by status";
      buckets = [];
      labels = "status" ∷ [];
    };
    worker_cpu_usage = record {
      kind = gauge;
      name = "nimbusrun_worker_cpu_usage";
      help = "Worker CPU usage (0-1)";
      buckets = [];
      labels = "worker_id" ∷ [];
    };
    worker_memory_usage = record {
      kind = gauge;
      name = "nimbusrun_worker_memory_usage";
      help = "Worker memory usage (0-1)";
      buckets = [];
      labels = "worker_id" ∷ [];
    };
    worker_running_tasks = record {
      kind = gauge;
      name = "nimbusrun_worker_running_tasks";
      help = "Number of tasks currently running on a worker";
      buckets = [];
      labels = "worker_id" ∷ [];
    };
    build_duration = record {
      kind = histogram;
      name = "nimbusrun_build_duration_seconds";
      help = "Build duration in seconds";
      buckets = integers (1 ∷ 5 ∷ 10 ∷ 30 ∷ 60 ∷ 120 ∷ 300 ∷ 600 ∷ []);
      labels = "function_id" ∷ [];
    };
    build_success = record {
      kind = counter;
      name = "nimbusrun_builds_success_total";
      help = "Total successful builds";
      buckets = [];
      labels = "function_id" ∷ [];
    };
    build_failure = record {
      kind = counter;
      name = "nimbusrun_builds_failure_total";
      help = "Total failed builds";
      buckets = [];
      labels = "function_id" ∷ "reason" ∷ [];
    };
    auth_attempts = record {
      kind = counter;
      name = "nimbusrun_auth_attempts_total";
      help = "Total authentication attempts";
      buckets = [];
      labels = "result" ∷ [];
    };
    http_request_duration = record {
      kind = histogram;
      name = "nimbusrun_http_request_duration_ms";
      help = "HTTP request duration in milliseconds";
      buckets = p.def_buckets;
      labels = "method" ∷ "path" ∷ "status" ∷ [];
    };
    http_requests_total = record {
      kind = counter;
      name = "nimbusrun_http_requests_total";
      help = "Total HTTP requests";
      buckets = [];
      labels = "method" ∷ "path" ∷ "status" ∷ [];
    };
  }

  -- The order in which `NewMetrics` registers them.
  unfoldable pub registered_metrics : List (Desc f)
  unfolding metrics
  registered_metrics =
      let m = metrics in
      m.invocations_total ∷ m.invocation_duration ∷ m.invocation_errors ∷ m.cold_start_total
      ∷ m.queue_depth ∷ m.queue_latency ∷ m.worker_count ∷ m.worker_cpu_usage
      ∷ m.worker_memory_usage ∷ m.worker_running_tasks ∷ m.build_duration ∷ m.build_success
      ∷ m.build_failure ∷ m.auth_attempts ∷ m.http_request_duration ∷ m.http_requests_total ∷ []

  unfoldable pub register_all : List (Desc f) → Exec p.State (Unit {0})
  register_all [] = pure tt
  register_all (d ∷ ds) = p.register d >> register_all ds

  unfoldable pub new_metrics : Exec p.State (Metrics f)
  new_metrics = register_all registered_metrics >> pure metrics

  abbrev when : Bool → Exec p.State (Unit {0}) → Exec p.State (Unit {0})
  when b m = if b then m else pure tt

  module _ (m : Metrics f) where
    unfoldable pub record_invocation : String → String → ℤ → Bool → String → Exec p.State (Unit {0})
    record_invocation function_id status duration_ms cold_start error_type = do
      p.change m.invocations_total (function_id ∷ status ∷ []) inc
      when (ltb_ℤ (pos 0) duration_ms)
          (p.change m.invocation_duration (function_id ∷ []) (observe (f.of_int duration_ms)))
      when cold_start (p.change m.cold_start_total [] inc)
      when (str_eq status "FAILED")
          (p.change m.invocation_errors (function_id ∷ error_type ∷ []) inc)

    unfoldable pub record_queue_latency : String → ℤ → Exec p.State (Unit {0})
    record_queue_latency function_id latency_ms =
        p.change m.queue_latency (function_id ∷ []) (observe (f.of_int latency_ms))

    unfoldable pub update_worker : String → f.Float → f.Float → ℤ → Bool → Exec p.State (Unit {0})
    update_worker worker_id cpu mem running_tasks healthy = do
      if healthy
          then (p.change m.worker_count ("healthy" ∷ []) inc
              >> p.change m.worker_count ("unhealthy" ∷ []) dec)
          else (p.change m.worker_count ("unhealthy" ∷ []) inc
              >> p.change m.worker_count ("healthy" ∷ []) dec)
      p.change m.worker_cpu_usage (worker_id ∷ []) (set cpu)
      p.change m.worker_memory_usage (worker_id ∷ []) (set mem)
      p.change m.worker_running_tasks (worker_id ∷ []) (set (f.of_int running_tasks))

    -- `duration.Seconds()`
    unfoldable pub seconds : ℤ → f.Float
    seconds duration =
        f.add (f.of_int (quot_ℤ duration second))
          (f.div (f.of_int (rem_ℤ duration second)) (f.of_int (pos second)))

    unfoldable pub record_build : String → ℤ → Bool → String → Exec p.State (Unit {0})
    unfolding seconds
    record_build function_id duration success reason = do
      p.change m.build_duration (function_id ∷ []) (observe (seconds duration))
      if success
          then p.change m.build_success (function_id ∷ []) inc
          else p.change m.build_failure (function_id ∷ reason ∷ []) inc

    unfoldable pub record_auth_attempt : Bool → Exec p.State (Unit {0})
    record_auth_attempt success =
        if success
        then p.change m.auth_attempts ("success" ∷ []) inc
        else p.change m.auth_attempts ("failure" ∷ []) inc

    unfoldable pub record_http_request : String → String → ℤ → ℤ → Exec p.State (Unit {0})
    record_http_request method path status duration_ms = do
      p.change m.http_requests_total (method ∷ path ∷ format_int status ∷ []) inc
      p.change m.http_request_duration (method ∷ path ∷ format_int status ∷ [])
          (observe (f.of_int duration_ms))

    -- The function that `HTTPMiddleware` returns.
    unfoldable pub http_middleware : String → String → ℤ → ℤ → Exec p.State (Unit {0})
    http_middleware method path status duration =
        record_http_request method path status (quot_ℤ duration 1000000)
