-- ===== src/Idempotency.antt =====
-- internal/idempotency/idempotency.go: results and locks under idempotency keys in Redis.
pub mod Keys
pub mod Exclusion
pub mod Locks
pub mod Results
pub mod Extension
use Prim.Native.String.{◌++◌ as str_append}
use nimbus_run_a_self_hosted.Prelude.{
  ℕ, ◌*◌, String, Bool, true, false, Option, none, some, str_eq, if◌then◌else◌,
}
use nimbus_run_a_self_hosted.Prelude.Exec.{
  Error, Result, ok, err, Exec, pure, lift, wrap, wrap_with, attempt, ◌>>=◌, ◌>>◌,
}
use nimbus_run_a_self_hosted.Platform.Data.{Codec, Uuid, UuidLib, second}
use nimbus_run_a_self_hosted.Platform.Redis.{Redis}

-- The field `ttl` of the service, 24 hours.
abbrev pub result_ttl : ℕ
result_ttl = 24 * 3600 * second

pub record ResultCache : Type 0 where
  pub invocation_id : String
  pub status : String
  pub result : String
  pub error : String

unfoldable pub idem_key : String → String
idem_key key = str_append "idem:" key

unfoldable pub lock_key : String → String
lock_key key = str_append "lock:" key

module _ (r : Redis) where
  module _ (c : Codec ResultCache) where
    unfoldable pub check : String → Exec r.State (Option ResultCache)
    unfolding idem_key
    check key = if str_eq key "" then pure none else do
      val ← wrap_with "checking idempotency key" (r.get (idem_key key))
      elim val [
        | none ↦ pure none
        | some text ↦ do
          result ← lift (wrap "parsing cached result" (c.unmarshal text))
          pure (some result)
      ]

    unfoldable pub store : String → String → String → String → String → Exec r.State (Unit {0})
    unfolding idem_key
    store key invocation_id status result err_msg =
        if str_eq key ""
        then pure tt
        else let cache : ResultCache = record {
          invocation_id = invocation_id;
          status = status;
          result = result;
          error = err_msg;
        } in
          do
            text ← lift (wrap "marshaling result" (c.marshal cache))
            r.set (idem_key key) text result_ttl

  -- `token` is the text of the id that `uuid.New` returns in the call.
  unfoldable pub acquire_lock : String → String → ℕ → Exec r.State (Bool × String)
  unfolding lock_key
  acquire_lock key token ttl = if str_eq key "" then pure (true, "") else do
    answer ← attempt (r.set_nx (lock_key key) token ttl)
    elim answer [ ok got ↦ pure (got, token) | err e ↦ pure (false, "") ]

  -- The Lua script: `if redis.call("get", KEYS[1]) == ARGV[1] then return redis.call("del", …)`.
  unfoldable pub release_script : String → String → r.State → ℕ × r.State
  release_script key token s = elim (r.call_get key s) [
    | none ↦ (0, s)
    | some held ↦ if str_eq held token then r.call_del key s else (0, s)
  ]

  unfoldable pub release_lock : String → String → Exec r.State (Unit {0})
  unfolding lock_key release_script
  release_lock key token =
      if str_eq key "" then pure tt else do r.eval (release_script (lock_key key) token); pure tt

  unfoldable pub delete : String → Exec r.State (Unit {0})
  unfolding idem_key
  delete key = if str_eq key "" then pure tt else r.del (idem_key key)
