-- ===== src/Models.antt =====
-- internal/models/models.go: the domain records.
use nimbus_run_a_self_hosted.Prelude.{String, Bool}
use nimbus_run_a_self_hosted.Prelude.Int.{ℤ}
use nimbus_run_a_self_hosted.Platform.Data.{Uuid, Time}

pub record User : Type 0 where
  pub id : Uuid
  pub email : String
  pub api_key : String
  pub created_at : Time
  pub updated_at : Time

pub record Function : Type 0 where
  pub id : Uuid
  pub user_id : Uuid
  pub name : String
  pub entrypoint : String
  pub memory_limit : ℤ
  pub cpu_limit : ℤ
  pub timeout : ℤ
  pub max_concurrency : ℤ
  pub active_version_id : Uuid
  pub created_at : Time
  pub updated_at : Time

pub record FunctionVersion : Type 0 where
  pub id : Uuid
  pub function_id : Uuid
  pub version_num : ℤ
  pub image_uri : String
  pub status : String
  pub created_at : Time

pub record Invocation : Type 0 where
  pub id : Uuid
  pub function_id : Uuid
  pub version_id : Uuid
  pub worker_id : Uuid
  pub status : String
  pub duration_ms : ℤ
  pub cold_start : Bool
  pub retry_count : ℤ
  pub error_msg : String
  pub idemp_key : String
  pub created_at : Time

pub record DlqEntry : Type 0 where
  pub id : Uuid
  pub function_id : Uuid
  pub version_id : Uuid
  pub attempts : ℤ
  pub last_error : String
  pub created_at : Time

pub record Worker : Type 0 where
  pub id : Uuid
  pub worker_id : String
  pub hostname : String
  pub status : String
  pub cpu_capacity : ℤ
  pub mem_capacity : ℤ
  pub last_hb : Time
  pub created_at : Time

pub record LogEntry : Type 0 where
  pub id : Uuid
  pub invocation_id : Uuid
  pub level : String
  pub message : String
  pub timestamp : Time
