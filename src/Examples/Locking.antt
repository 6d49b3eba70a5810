-- ===== src/Examples/Locking.antt =====
-- The properties of the idempotency service at a sample key.
use nimbus_run_a_self_hosted.Prelude.{String, ◌≡◌, ◌≢◌, refl, some, arith, eq_iff}
use nimbus_run_a_self_hosted.Idempotency.{acquire_lock}
use nimbus_run_a_self_hosted.Idempotency.Locks.{holder}
use nimbus_run_a_self_hosted.Prelude.{[], ◌∷◌, ◌⊎◌}
use nimbus_run_a_self_hosted.Idempotency.Exclusion.{
  Trace, begin, took, refused, acquire_lock_exclusive,
}
use nimbus_run_a_self_hosted.Examples.Server.{Server, memory, memory-IsRedis, blank_server}

abbrev key : String
key = "order-1"

abbrev token : String
token = "a"

key_named : key ≢ ""
key_named = λ e. ground (arith, (eq_iff key "").1 e)

-- The first caller gets the lock, and a second is refused.
abbrev taken : Server
taken = (acquire_lock memory key token 30 blank_server).1

first_takes : Trace memory memory-IsRedis key (token ∷ []) taken
unfolding acquire_lock
first_takes = took [] blank_server token 30 (begin blank_server refl) refl

two_callers : Trace memory memory-IsRedis key (token ∷ []) (acquire_lock memory key "b" 30 taken).1
unfolding acquire_lock
two_callers = refused (token ∷ []) taken "b" "b" 30 first_takes refl

acquire_lock_exclusive_example :
    (token ∷ [] ≡ [])
    ⊎ ((t : String) × (token ∷ [] ≡ t ∷ [])
        × (holder memory memory-IsRedis key (acquire_lock memory key "b" 30 taken).1 ≡ some t))
acquire_lock_exclusive_example =
    acquire_lock_exclusive memory memory-IsRedis key (token ∷ [])
      (acquire_lock memory key "b" 30 taken).1 key_named two_callers
