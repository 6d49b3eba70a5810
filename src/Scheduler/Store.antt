-- ===== src/Scheduler/Store.antt =====
-- internal/scheduler/heartbeat_store.go: WorkerHeartbeatStore. Go walks a map in any order: `visit`
-- stands for the order of one walk.
use nimbus_run_a_self_hosted.Prelude.{
  ℕ, suc, ◌*◌, String, Option, List, [], ◌∷◌, map, if◌then◌else◌, lookup, assign, discard, select,
  length,
}
use nimbus_run_a_self_hosted.Platform.Data.{Time, second}
use nimbus_run_a_self_hosted.Queue.Types.{WorkerHeartbeat}
use nimbus_run_a_self_hosted.Queue.Heartbeat.{is_healthy}

-- A Go map from worker ids.
abbrev pub Workers : Type 0 → Type 0
Workers F = List (String × WorkerHeartbeat F)

abbrev pub Order : Type 0 → Type 0
Order F = Workers F → Workers F

module _ {F : Type 0} where
  abbrev pub beats : Workers F → List (WorkerHeartbeat F)
  beats m = map (λ e. e.1) m

  unfoldable pub healthy_beats : Time → Workers F → List (WorkerHeartbeat F)
  healthy_beats now m = select (is_healthy now) (beats m)

pub record WorkerHeartbeatStore (F : Type 0) : Type 0 where
  pub workers : Workers F
  pub ttl : ℕ

unfoldable pub new_worker_heartbeat_store : {F : Type 0} → WorkerHeartbeatStore F
new_worker_heartbeat_store = record { workers = []; ttl = 30 * second }

module _ {F : Type 0} where
  unfoldable pub update : WorkerHeartbeat F → WorkerHeartbeatStore F → WorkerHeartbeatStore F
  update hb s = record s { workers = assign hb.worker_id hb s.workers }

  unfoldable pub get : String → WorkerHeartbeatStore F → Option (WorkerHeartbeat F)
  get worker_id s = lookup worker_id s.workers

  unfoldable pub list : Order F → WorkerHeartbeatStore F → List (WorkerHeartbeat F)
  list visit s = beats (visit s.workers)

  unfoldable pub list_healthy : Order F → Time → WorkerHeartbeatStore F → List (WorkerHeartbeat F)
  list_healthy visit now s = healthy_beats now (visit s.workers)

  unfoldable pub remove : String → WorkerHeartbeatStore F → WorkerHeartbeatStore F
  remove worker_id s = record s { workers = discard worker_id s.workers }

  -- The loop of `CleanStale` over the entries in the order of the walk.
  unfoldable pub clean_loop : Time → Workers F → Workers F → ℕ → Workers F × ℕ
  clean_loop now [] m removed = (m, removed)
  clean_loop now ((id, w) ∷ rest) m removed =
      clean_loop now rest (if is_healthy now w then m else discard id m)
        (if is_healthy now w then removed else suc removed)

  unfoldable pub clean_stale : Order F → Time → WorkerHeartbeatStore F → WorkerHeartbeatStore F × ℕ
  unfolding clean_loop
  clean_stale visit now s =
      let (m, removed) = clean_loop now (visit s.workers) s.workers 0 in
      (record s { workers = m }, removed)

  unfoldable pub count : WorkerHeartbeatStore F → ℕ
  count s = length s.workers

  unfoldable pub count_loop : Time → Workers F → ℕ → ℕ
  count_loop now [] n = n
  count_loop now ((id, w) ∷ rest) n = count_loop now rest (if is_healthy now w then suc n else n)

  unfoldable pub count_healthy : Order F → Time → WorkerHeartbeatStore F → ℕ
  unfolding count_loop
  count_healthy visit now s = count_loop now (visit s.workers) 0
