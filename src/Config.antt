-- ===== src/Config.antt =====
-- internal/config/config.go: the configuration. viper is a parameter; a key is a path of names.
pub mod Records
pub mod Defaults
pub use Records.{
  ServerConfig, DatabaseConfig, StreamConfig, RedisConfig, AuthConfig, DockerConfig, WorkerConfig,
  BuildConfig, ObsConfig, Config,
}
use nimbus_run_a_self_hosted.Prelude.{ℕ, ◌*◌, String, List, [], ◌∷◌}
use nimbus_run_a_self_hosted.Prelude.Exec.{Result, Exec, pure, lift, ◌>>=◌, ◌>>◌}
use nimbus_run_a_self_hosted.Prelude.Int.{ℤ, pos}

-- A value of a default: a text, or a number.
pub data Setting : Type 0 where
  text : String → Setting
  int : ℤ → Setting

-- `decode` reads the value at a key as the field's type; a key that has none leaves the zero value.
pub record Viper : Type 1 where
  pub State : Type 0
  pub new : State
  pub set_env_prefix : String → State → State
  pub automatic_env : State → State
  pub set_default : String → Setting → State → State
  pub decode_text : State → String → Result String
  pub decode_int : State → String → Result ℤ
  -- A text such as "24h" is read as nanoseconds.
  pub decode_duration : State → String → Result ℤ

unfoldable pub defaults : List (String × Setting)
defaults =
    ("server.port", text "8080")
    ∷ ("server.host", text "0.0.0.0")
    ∷ ("database.host", text "localhost")
    ∷ ("database.port", text "5432")
    ∷ ("database.user", text "nimbusrun")
    ∷ ("database.password", text "nimbusrun")
    ∷ ("database.dbname", text "nimbusrun")
    ∷ ("database.sslmode", text "disable")
    ∷ ("redis.addr", text "localhost:6379")
    ∷ ("redis.password", text "")
    ∷ ("redis.db", int (pos 0))
    ∷ ("redis.stream.job_queue", text "nimbusrun:jobs")
    ∷ ("redis.stream.result_queue", text "nimbusrun:results")
    ∷ ("redis.stream.group_name", text "nimbusrun:workers")
    ∷ ("redis.stream.consumer", text "worker-1")
    ∷ ("auth.jwt_secret", text "super-secret-key-change-me")
    ∷ ("auth.jwt_expiry", text "24h")
    ∷ ("auth.refresh_expiry", text "168h")
    ∷ ("auth.api_key_header", text "X-API-Key")
    ∷ ("docker.host", text "unix:///var/run/docker.sock")
    ∷ ("docker.registry", text "localhost:5000")
    ∷ ("docker.default_timeout", int (pos 30))
    ∷ ("worker.heartbeat_interval", text "5s")
    ∷ ("worker.heartbeat_timeout", text "15s")
    ∷ ("observability.metrics_path", text "/metrics")
    ∷ ("observability.metrics_port", text "9090")
    ∷ []

module _ (v : Viper) where
  unfoldable pub set_defaults : List (String × Setting) → v.State → v.State
  set_defaults [] s = s
  set_defaults ((k, value) ∷ rest) s = set_defaults rest (v.set_default k value s)

  abbrev texts : String → Exec v.State String
  texts k s = (v.decode_text s k, s)

  abbrev ints : String → Exec v.State ℤ
  ints k s = (v.decode_int s k, s)

  abbrev durations : String → Exec v.State ℤ
  durations k s = (v.decode_duration s k, s)

  abbrev server_config : Exec v.State ServerConfig
  server_config = do
    port ← texts "server.port"
    host ← texts "server.host"
    pure (record { port = port; host = host })

  -- The tag of `DBName` is "dbnam".
  unfoldable pub database_config : Exec v.State DatabaseConfig
  database_config = do
    host ← texts "database.host"
    port ← texts "database.port"
    user ← texts "database.user"
    password ← texts "database.password"
    db_name ← texts "database.dbnam"
    ssl_mode ← texts "database.sslmode"
    pure (record {
      host = host;
      port = port;
      user = user;
      password = password;
      db_name = db_name;
      ssl_mode = ssl_mode;
    })

  abbrev stream_config : Exec v.State StreamConfig
  stream_config = do
    job_queue ← texts "redis.stream.job_queue"
    result_queue ← texts "redis.stream.result_queue"
    group_name ← texts "redis.stream.group_name"
    consumer ← texts "redis.stream.consumer"
    pure (record {
      job_queue = job_queue;
      result_queue = result_queue;
      group_name = group_name;
      consumer = consumer;
    })

  abbrev redis_config : Exec v.State RedisConfig
  redis_config = do
    addr ← texts "redis.addr"
    password ← texts "redis.password"
    db ← ints "redis.db"
    stream ← stream_config
    pure (record { addr = addr; password = password; db = db; stream = stream })

  abbrev auth_config : Exec v.State AuthConfig
  auth_config = do
    jwt_secret ← texts "auth.jwt_secret"
    jwt_expiry ← durations "auth.jwt_expiry"
    refresh_expire ← durations "auth.refresh_expiry"
    api_key_header ← texts "auth.api_key_header"
    pure (record {
      jwt_secret = jwt_secret;
      jwt_expiry = jwt_expiry;
      refresh_expire = refresh_expire;
      api_key_header = api_key_header;
    })

  abbrev docker_config : Exec v.State DockerConfig
  docker_config = do
    host ← texts "docker.host"
    registry ← texts "docker.registry"
    default_timeout ← ints "docker.default_timeout"
    pure (record { host = host; registry = registry; default_timeout = default_timeout })

  abbrev worker_config : Exec v.State WorkerConfig
  worker_config = do
    heartbeat_interval ← durations "worker.heartbeat_interval"
    heartbeat_timeout ← durations "worker.heartbeat_timeout"
    pure (record { heartbeat_interval = heartbeat_interval; heartbeat_timeout = heartbeat_timeout })

  abbrev build_config : Exec v.State BuildConfig
  build_config = do
    workers_dir ← texts "build.workers_dir"
    registry ← texts "build.registry"
    pure (record { workers_dir = workers_dir; registry = registry })

  abbrev obs_config : Exec v.State ObsConfig
  obs_config = do
    metrics_path ← texts "observability.metrics_path"
    metrics_port ← texts "observability.metrics_port"
    pure (record { metrics_path = metrics_path; metrics_port = metrics_port })

  -- `v.Unmarshal(&cfg)`
  unfoldable pub unmarshal : Exec v.State Config
  unfolding database_config
  unmarshal = do
    server ← server_config
    database ← database_config
    redis ← redis_config
    auth ← auth_config
    docker ← docker_config
    worker ← worker_config
    build ← build_config
    observability ← obs_config
    pure (record {
      server = server;
      database = database;
      redis = redis;
      auth = auth;
      docker = docker;
      worker = worker;
      build = build;
      observability = observability;
    })

  unfoldable pub load : Result Config
  unfolding defaults set_defaults unmarshal
  load =
      (unmarshal (set_defaults defaults (v.automatic_env (v.set_env_prefix "NIMBUSRUN" v.new)))).0
