-- ===== src/Config/Records.antt =====
-- internal/config/config.go: the sections of the configuration.
use nimbus_run_a_self_hosted.Prelude.{String}
use nimbus_run_a_self_hosted.Prelude.Int.{ℤ}

pub record ServerConfig : Type 0 where
  pub port : String
  pub host : String

pub record DatabaseConfig : Type 0 where
  pub host : String
  pub port : String
  pub user : String
  pub password : String
  pub db_name : String
  pub ssl_mode : String

pub record StreamConfig : Type 0 where
  pub job_queue : String
  pub result_queue : String
  pub group_name : String
  pub consumer : String

pub record RedisConfig : Type 0 where
  pub addr : String
  pub password : String
  pub db : ℤ
  pub stream : StreamConfig

pub record AuthConfig : Type 0 where
  pub jwt_secret : String
  pub jwt_expiry : ℤ
  pub refresh_expire : ℤ
  pub api_key_header : String

pub record DockerConfig : Type 0 where
  pub host : String
  pub registry : String
  pub default_timeout : ℤ

pub record WorkerConfig : Type 0 where
  pub heartbeat_interval : ℤ
  pub heartbeat_timeout : ℤ

pub record BuildConfig : Type 0 where
  pub workers_dir : String
  pub registry : String

pub record ObsConfig : Type 0 where
  pub metrics_path : String
  pub metrics_port : String

pub record Config : Type 0 where
  pub server : ServerConfig
  pub database : DatabaseConfig
  pub redis : RedisConfig
  pub auth : AuthConfig
  pub docker : DockerConfig
  pub worker : WorkerConfig
  pub build : BuildConfig
  pub observability : ObsConfig
