-- ===== src/Programs.antt =====
-- cmd/api-gateway/main.go, cmd/scheduler/main.go and cmd/worker/main.go: what the programs start with.
-- A failure that ends the program is an error here.
use Prim.Native.String.{◌++◌ as str_append}
use nimbus_run_a_self_hosted.Prelude.{ℕ, ◌*◌, String}
use nimbus_run_a_self_hosted.Prelude.Exec.{
  Result, Exec, pure, lift, attempt, wrap_with, ◌>>=◌, ◌>>◌,
}
use nimbus_run_a_self_hosted.Prelude.Int.{ℤ, pos}
use nimbus_run_a_self_hosted.Platform.Data.{Time, second, unix}
use nimbus_run_a_self_hosted.Platform.Float.{Float64}
use nimbus_run_a_self_hosted.Queue.Stream.{RedisStreamQueue}
use nimbus_run_a_self_hosted.Worker.Service as WorkerService
use nimbus_run_a_self_hosted.Auth
use nimbus_run_a_self_hosted.Config.{Config, DatabaseConfig, RedisConfig, ServerConfig}
use nimbus_run_a_self_hosted.Database.{Server, new, run_migrations}

-- `redis.Options`
pub record RedisOptions : Type 0 where
  pub addr : String
  pub password : String
  pub db : ℤ

-- The machine that a program runs on: the database server, Redis, and Docker for `worker.NewRunner`.
pub record Site : Type 1 where
  pub database : Server
  pub ping_redis : RedisOptions → Exec database.State (Unit {0})
  pub new_runner : ℤ → Exec database.State (Unit {0})
  pub format_pid : ℕ → String

unfoldable pub database_url : DatabaseConfig → String
database_url d = str_append "postgres://" (
    str_append d.user (
      str_append ":" (
        str_append d.password (
          str_append "@" (
            str_append d.host (
              str_append ":" (
                str_append d.port
                  (str_append "/" (str_append d.db_name (str_append "?sslmode=" d.ssl_mode))))))))))

unfoldable pub redis_options : RedisConfig → RedisOptions
redis_options r = record { addr = r.addr; password = r.password; db = r.db }

-- `Server.Run`
unfoldable pub listen_address : ServerConfig → String
listen_address s = str_append s.host (str_append ":" s.port)

-- What the API gateway serves with.
pub record Gateway (Pool : Type 0) : Type 0 where
  pub pool : Pool
  pub auth : Auth.Service
  pub address : String

-- What the scheduler runs with.
pub record SchedulerParts (Pool : Type 0) : Type 0 where
  pub pool : Pool
  pub job_queue : RedisStreamQueue

module _ (site : Site) where
  unfoldable pub start_gateway :
      Result Config → Exec site.database.State (Gateway site.database.Pool)
  start_gateway loaded = do
    cfg ← wrap_with "failed to load config" (lift loaded)
    pool ← wrap_with "failed to connect to database" (new site.database (database_url cfg.database))
    wrap_with "failed to run migrations" (run_migrations site.database pool "migrations")
    pure (record {
      pool = pool;
      auth = record { jwt_secret = cfg.auth.jwt_secret; token_ttl = cfg.auth.jwt_expiry };
      address = listen_address cfg.server;
    })

  -- Up to `Scheduler.new_scheduler` and `Scheduler.start`, which are given this queue.
  unfoldable pub start_scheduler :
      Result Config → Exec site.database.State (SchedulerParts site.database.Pool)
  start_scheduler loaded = do
    cfg ← wrap_with "Failed to load config" (lift loaded)
    pool ← wrap_with "Failed to connect to database" (new site.database (database_url cfg.database))
    wrap_with "Failed to connect to Redis" (site.ping_redis (redis_options cfg.redis))
    pure (record {
      pool = pool;
      job_queue = record {
        job_stream = cfg.redis.stream.job_queue;
        result_stream = cfg.redis.stream.result_queue;
      };
    })

  unfoldable pub worker_name : ℕ → String
  worker_name pid = str_append "worker-" (site.format_pid pid)

  -- The stream is the same whatever the configuration says.
  unfoldable pub worker_service : ℕ → WorkerService.Service
  unfolding worker_name
  worker_service pid = record {
    worker_id = worker_name pid;
    queue_name = "nimbusrun:jobs";
    consumer_name = worker_name pid;
  }

  -- A database that cannot be reached is only logged.
  unfoldable pub start_worker : Result Config → ℕ → Exec site.database.State WorkerService.Service
  start_worker loaded pid = do
    cfg ← wrap_with "Failed to load config" (lift loaded)
    attempt (new site.database (database_url cfg.database))
    wrap_with "Failed to connect to Redis" (site.ping_redis (redis_options cfg.redis))
    wrap_with "Failed to create container runner" (site.new_runner (pos (30 * second)))
    pure (worker_service pid)

  -- The heartbeat that is sent every five seconds.
  unfoldable pub worker_heartbeat : (f : Float64) → ℕ → Time → WorkerService.HeartbeatInfo f.Float
  unfolding worker_name
  worker_heartbeat f pid now = record {
    worker_id = worker_name pid;
    hostname = "localhost";
    cpu_usage = f.lit 0 1;
    memory_usage = f.lit 0 1;
    running_tasks = pos 0;
    available_slots = pos 10;
    timestamp = unix now;
  }
