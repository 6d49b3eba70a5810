-- ===== src/Observability/Log.antt =====
-- internal/observability/logger.go: the structured log. zap is a parameter.
use nimbus_run_a_self_hosted.Prelude.{
  String, Bool, Option, none, some, List, [], ◌∷◌, ◌++◌, if◌then◌else◌,
}
use nimbus_run_a_self_hosted.Prelude.Exec.{panicked, Result, Exec, pure, raise, ignore, ◌>>=◌}
use nimbus_run_a_self_hosted.Prelude.Int.{ℤ}
use nimbus_run_a_self_hosted.Platform.Data.{Time}

-- `zap.Field`
pub data Field : Type 0 where
  string : String → String → Field
  int : String → ℤ → Field
  time : String → Time → Field

pub data Level : Type 0 where
  info warn error : Level

-- The parts of `zap.Config` that `InitLogger` sets; it begins as one of zap's two.
pub record ZapConfig : Type 0 where
  pub production : Bool
  pub color_levels : Bool
  pub time_key : String
  pub iso8601 : Bool

-- `Core` is a `*zap.Logger` that is not nil; `default_time_key` is that of each of zap's configs.
pub record Zap : Type 1 where
  pub State : Type 0
  pub Core : Type 0
  pub default_time_key : Bool → String
  pub build : ZapConfig → Result Core
  pub nop : Core
  pub with_fields : List Field → Core → Core
  pub write : Core → Level → String → List Field → Exec State (Unit {0})
  pub sync : Core → Exec State (Unit {0})

-- `InvocLogger`; its three ids are in the fields of `logger` as well.
pub record InvocLogger (Core : Type 0) : Type 0 where
  pub logger : Core
  pub inv_id : String
  pub fn_id : String
  pub worker_id : String

module _ (z : Zap) where
  -- The global `Logger` that `InitLogger` sets, or the error it returns.
  unfoldable pub init_logger : Bool → Result z.Core
  init_logger production = z.build (record {
    production = production;
    color_levels = if production then Bool.false else Bool.true;
    time_key = "timestamp";
    iso8601 = Bool.true;
  })

  -- `logger` is the global `Logger`, which is nil until it is set.
  unfoldable pub sync : Option z.Core → Exec z.State (Unit {0})
  sync none = pure tt
  sync (some core) = ignore (z.sync core)

  abbrev field_of : String → Option String → List Field
  field_of name none = []
  field_of name (some value) = string name value ∷ []

  -- `value` reads a text from the context.
  unfoldable pub with_context : Option z.Core → (String → Option String) → z.Core
  with_context none value = z.nop
  with_context (some core) value =
      z.with_fields
        (field_of "request_id" (value "request_id")
          ++ (field_of "function_id" (value "function_id")
              ++ field_of "worker_id" (value "worker_id")))
        core

  -- `Logger.With` of a nil logger panics when there are fields.
  abbrev set_logger : Option z.Core → Exec z.State z.Core
  set_logger none = raise (panicked "invalid memory address or nil pointer dereference")
  set_logger (some core) = pure core

  unfoldable pub new_invoc_logger :
      Option z.Core → String → String → String → Exec z.State (InvocLogger z.Core)
  new_invoc_logger logger inv_id fn_id worker_id = do
    core ← set_logger logger
    pure (record {
      logger =
          z.with_fields
            (string "invocation_id" inv_id
              ∷ string "function_id" fn_id
              ∷ string "worker_id" worker_id
              ∷ [])
            core;
      inv_id = inv_id;
      fn_id = fn_id;
      worker_id = worker_id;
    })

  unfoldable pub log_infra : Option z.Core → String → String → List Field → Exec z.State (Unit {0})
  log_infra logger component event fields = do
    core ← set_logger logger
    z.write (z.with_fields (string "component" component ∷ []) core) info event fields

  -- `now` is `time.Now()`.
  module _ (l : InvocLogger z.Core) (now : Time) where
    unfoldable pub log_job_received : Exec z.State (Unit {0})
    log_job_received =
        z.write l.logger info "job received"
          (string "event" "job_received" ∷ time "timestamp" now ∷ [])

    unfoldable pub log_job_started : String → Exec z.State (Unit {0})
    log_job_started container_id = z.write l.logger info "job started" (
        string "event" "job_started"
        ∷ string "container_id" container_id
        ∷ time "timestamp" now
        ∷ [])

    unfoldable pub log_job_completed : ℤ → ℤ → Exec z.State (Unit {0})
    log_job_completed exit_code duration_ms = z.write l.logger info "job completed" (
        string "event" "job_completed"
        ∷ int "exit_code" exit_code
        ∷ int "duration_ms" duration_ms
        ∷ time "timestamp" now
        ∷ [])

    unfoldable pub log_job_failed : String → ℤ → Exec z.State (Unit {0})
    log_job_failed reason duration_ms = z.write l.logger warn "job failed" (
        string "event" "job_failed"
        ∷ string "reason" reason
        ∷ int "duration_ms" duration_ms
        ∷ time "timestamp" now
        ∷ [])

    unfoldable pub log_job_timeout : ℤ → Exec z.State (Unit {0})
    log_job_timeout timeout_seconds = z.write l.logger warn "job timed out" (
        string "event" "job_timeout"
        ∷ int "timeout_seconds" timeout_seconds
        ∷ time "timestamp" now
        ∷ [])

    unfoldable pub log_retry : ℤ → ℤ → ℤ → Exec z.State (Unit {0})
    log_retry retry max_retries delay_ms = z.write l.logger info "job retrying" (
        string "event" "job_retry"
        ∷ int "attempt" retry
        ∷ int "max_retries" max_retries
        ∷ int "delay_ms" delay_ms
        ∷ time "timestamp" now
        ∷ [])

    unfoldable pub log_dlq : String → ℤ → Exec z.State (Unit {0})
    log_dlq reason attempt_count = z.write l.logger error "job moved to DLQ" (
        string "event" "job_dlq"
        ∷ string "reason" reason
        ∷ int "attempt_count" attempt_count
        ∷ time "timestamp" now
        ∷ [])

    unfoldable pub log_container_killed : String → String → Exec z.State (Unit {0})
    log_container_killed signal reason = z.write l.logger warn "container killed" (
        string "event" "container_killed"
        ∷ string "signal" signal
        ∷ string "reason" reason
        ∷ time "timestamp" now
        ∷ [])
