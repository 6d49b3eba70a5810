-- ===== src/Env.antt =====
-- The libraries and services of one running API server or result processor, and the state that its
-- actions share: Redis, the database, the ids drawn so far, and the pending `time.AfterFunc` calls.
use nimbus_run_a_self_hosted.Prelude.{◌≡◌, String, ℕ, suc, List}
use nimbus_run_a_self_hosted.Prelude.Exec.{ok, err, Exec}
use nimbus_run_a_self_hosted.Prelude.Int.{ℤ}
use nimbus_run_a_self_hosted.Platform.Data.{Uuid, UuidLib, IsUuidLib, Codec, IsCodec}
use nimbus_run_a_self_hosted.Platform.Redis.{Redis, IsRedis}
use nimbus_run_a_self_hosted.Platform.Postgres.{Postgres, IsPostgres}
use nimbus_run_a_self_hosted.Platform.Float.{Float64}
use nimbus_run_a_self_hosted.Queue.Types.{Job}
use nimbus_run_a_self_hosted.Idempotency.{ResultCache}

pub record Env : Type 1 where
  pub redis : Redis
  pub postgres : Postgres
  pub float : Float64
  pub uuids : UuidLib
  pub jobs : Codec Job
  pub caches : Codec ResultCache

pub record IsEnv (e : Env) : Type 0 where
  pub redis_laws : IsRedis e.redis
  pub postgres_laws : IsPostgres e.postgres
  pub uuid_laws : IsUuidLib e.uuids
  pub job_laws : IsCodec e.jobs
  pub cache_laws : IsCodec e.caches

-- A call of `time.AfterFunc`: after `delay` the job is enqueued.
pub record Timer : Type 0 where
  pub delay : ℤ
  pub job : Job

pub record World (e : Env) : Type 0 where
  pub redis : e.redis.State
  pub db : e.postgres.State
  pub drawn : ℕ
  pub timers : List Timer

-- Redis and the pending timers are as before.
abbrev pub Untouched : {e : Env} → World e → World e → Type 0
Untouched w after = (after.redis ≡ w.redis) × (after.timers ≡ w.timers)

-- `id, _ := uuid.Parse(s)`: an error is dropped, and the value beside it is used.
abbrev pub parsed_id : UuidLib → String → Uuid
parsed_id u s = elim (u.parse s) [ ok id ↦ id | err e ↦ u.partial s ]

module _ (e : Env) where
  abbrev pub on_redis : {A : Type 0} → Exec e.redis.State A → Exec (World e) A
  on_redis m w = ((m w.redis).0, record w { redis = (m w.redis).1 })

  abbrev pub on_db : {A : Type 0} → Exec e.postgres.State A → Exec (World e) A
  on_db m w = ((m w.db).0, record w { db = (m w.db).1 })

  abbrev pub draw_id : Exec (World e) Uuid
  draw_id w = (ok (e.uuids.created w.drawn), record w { drawn = suc w.drawn })
