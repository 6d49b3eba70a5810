-- ===== src/Examples/Samples.antt =====
-- One function with a ready version, a request for it, and the job and result that belong to it.
use nimbus_run_a_self_hosted.Prelude.{
  ◌≡◌, Bool, true, false, ◌&&◌, ◌==◌, [], ◌∷◌, str_eq, arith, eq_iff,
}
use nimbus_run_a_self_hosted.Prelude.Int.{pos, eqb_ℤ, eqb_ℤ_eq}
use nimbus_run_a_self_hosted.Platform.Data.{Codec, IsCodec}
use nimbus_run_a_self_hosted.Platform.Postgres.{text, int, uuid, time, pair_up}
use nimbus_run_a_self_hosted.Queue.Types.{Job}
use nimbus_run_a_self_hosted.Queue.Stream.{RedisStreamQueue}
use nimbus_run_a_self_hosted.Idempotency.{ResultCache}
use nimbus_run_a_self_hosted.Repository.Functions
use nimbus_run_a_self_hosted.Repository.Versions
use nimbus_run_a_self_hosted.Env.{Env, IsEnv, World}
use nimbus_run_a_self_hosted.Invocation.{InvokeRequest, Service}
use nimbus_run_a_self_hosted.Examples.Server.{memory, memory-IsRedis, blank_server}
use nimbus_run_a_self_hosted.Examples.Tables.{
  tables, tables-IsPostgres, Tables, whole, stroke_ids, stroke_ids-IsUuidLib, codec_of,
  codec_of-IsCodec, with_table,
}

abbrev pub hello_job : Job
hello_job = record {
  id = 2;
  invocation_id = "i";
  function_id = "iii";
  version_id = "iiii";
  image_uri = "nimbus/hello:1";
  entrypoint = "main";
  payload = "{}";
  memory_limit_mb = pos 128;
  cpu_limit_millicores = pos 100;
  timeout_seconds = pos 30;
  retry_count = pos 0;
  max_retries = pos 3;
  idempotency_key = "order-1";
  worker_id = "";
  created_at = pos 9;
}

abbrev same_texts : Job → Bool
same_texts j =
    str_eq j.invocation_id "i"
    && str_eq j.function_id "iii"
    && str_eq j.version_id "iiii"
    && str_eq j.image_uri "nimbus/hello:1"
    && str_eq j.entrypoint "main"
    && str_eq j.payload "{}"
    && str_eq j.idempotency_key "order-1"
    && str_eq j.worker_id ""

abbrev same_numbers : Job → Bool
same_numbers j =
    (j.id == 2)
    && eqb_ℤ j.memory_limit_mb (pos 128)
    && eqb_ℤ j.cpu_limit_millicores (pos 100)
    && eqb_ℤ j.timeout_seconds (pos 30)
    && eqb_ℤ j.retry_count (pos 0)
    && eqb_ℤ j.max_retries (pos 3)
    && eqb_ℤ j.created_at (pos 9)

hello_only : (j : Job) → (same_texts j && same_numbers j) ≡ true → hello_job ≡ j
hello_only j e = ground (
  arith,
  e,
  eq_iff j.invocation_id "i",
  eq_iff j.function_id "iii",
  eq_iff j.version_id "iiii",
  eq_iff j.image_uri "nimbus/hello:1",
  eq_iff j.entrypoint "main",
  eq_iff j.payload "{}",
  eq_iff j.idempotency_key "order-1",
  eq_iff j.worker_id "",
  eqb_ℤ_eq j.memory_limit_mb (pos 128),
  eqb_ℤ_eq j.cpu_limit_millicores (pos 100),
  eqb_ℤ_eq j.timeout_seconds (pos 30),
  eqb_ℤ_eq j.retry_count (pos 0),
  eqb_ℤ_eq j.max_retries (pos 3),
  eqb_ℤ_eq j.created_at (pos 9),
)

abbrev pub jobs : Codec Job
jobs = codec_of (λ j. same_texts j && same_numbers j) hello_job

pub jobs-IsCodec : IsCodec jobs
jobs-IsCodec = codec_of-IsCodec _ hello_job hello_only

abbrev pub pending : ResultCache
pending = record { invocation_id = "i"; status = "PENDING"; result = ""; error = "" }

abbrev same_cache : ResultCache → Bool
same_cache c =
    str_eq c.invocation_id "i"
    && str_eq c.status "PENDING"
    && str_eq c.result ""
    && str_eq c.error ""

pending_only : (c : ResultCache) → same_cache c ≡ true → pending ≡ c
pending_only c e = ground (
  arith,
  e,
  eq_iff c.invocation_id "i",
  eq_iff c.status "PENDING",
  eq_iff c.result "",
  eq_iff c.error "",
)

abbrev pub caches : Codec ResultCache
caches = codec_of same_cache pending

pub caches-IsCodec : IsCodec caches
caches-IsCodec = codec_of-IsCodec same_cache pending pending_only

abbrev pub env : Env
env = record {
  redis = memory;
  postgres = tables;
  float = whole;
  uuids = stroke_ids;
  jobs = jobs;
  caches = caches;
}

pub env-IsEnv : IsEnv env
env-IsEnv = record {
  redis_laws = memory-IsRedis;
  postgres_laws = tables-IsPostgres;
  uuid_laws = stroke_ids-IsUuidLib;
  job_laws = jobs-IsCodec;
  cache_laws = caches-IsCodec;
}

abbrev pub queue : RedisStreamQueue
queue = record { job_stream = "nimbusrun:jobs"; result_stream = "nimbusrun:results" }

abbrev pub service : Service env
service = record {
  job_queue = queue;
  retry_policy = record {
    initial_delay = pos 1;
    multiplier = 2;
    max_retries = pos 3;
    max_delay = pos 30;
    jitter = false;
  };
}

abbrev pub request : InvokeRequest
request = record { function_id = 3; idempotency_key = "order-1"; payload = "{}" }

abbrev pub shop_tables : Tables
shop_tables =
    with_table "functions"
      (pair_up Functions.select_columns (
          uuid 3
          ∷ uuid 1
          ∷ text "hello"
          ∷ text "main"
          ∷ int (pos 128)
          ∷ int (pos 100)
          ∷ int (pos 30)
          ∷ int (pos 1)
          ∷ uuid 4
          ∷ time (pos 5)
          ∷ time (pos 5)
          ∷ [])
        ∷ [])
      (with_table "function_versions"
        (pair_up Versions.select_columns (
            uuid 4
            ∷ uuid 3
            ∷ int (pos 1)
            ∷ text "nimbus/hello:1"
            ∷ text "READY"
            ∷ time (pos 5)
            ∷ [])
          ∷ [])
        (λ table. []))

abbrev pub shop : World env
shop = record { redis = blank_server; db = shop_tables; drawn = 0; timers = [] }
