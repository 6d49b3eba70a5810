-- ===== src/Queue/Heartbeat.antt =====
-- internal/queue/types.go: the methods of WorkerHeartbeat.
use nimbus_run_a_self_hosted.Prelude.{ℕ, ◌-◌, ◌*◌, ◌^◌, String, Bool, str_eq, if◌then◌else◌}
use nimbus_run_a_self_hosted.Prelude.Exec.{errorf, Result, ok, err}
use nimbus_run_a_self_hosted.Prelude.Int.{ℤ, pos, negsuc, ◌+ℤ◌, ◌-ℤ◌, ◌*ℤ◌, leb_ℤ, ltb_ℤ, int64}
use nimbus_run_a_self_hosted.Platform.Data.{Codec, Time, second}
use nimbus_run_a_self_hosted.Platform.Float.{Float64}
use nimbus_run_a_self_hosted.Queue.Types.{WorkerHeartbeat}

-- `t.Sub(u)`: a difference that does not fit a Duration becomes the nearest one that does.
unfoldable pub sub_time : Time → Time → ℤ
sub_time t u =
    let d = t -ℤ u in
    if ltb_ℤ d (negsuc (2 ^ 63 - 1))
    then negsuc (2 ^ 63 - 1)
    else if ltb_ℤ (pos (2 ^ 63 - 1)) d
    then pos (2 ^ 63 - 1)
    else d

-- The seconds from the first of January of the year 1 to 1970, `unixToInternal` of package time.
abbrev pub unix_to_internal : ℕ
unix_to_internal = 62135596800

-- `time.Unix(sec, 0)`: a Time keeps the seconds since the year 1, in an int64 that can wrap.
unfoldable pub time_unix : ℤ → Time
time_unix sec = (int64 (sec +ℤ pos unix_to_internal) -ℤ pos unix_to_internal) *ℤ pos second

module _ (f : Float64) where
  open f use {Float, lit, of_int, add, mul, div}

  unfoldable pub calculate_load : WorkerHeartbeat Float → Float
  calculate_load h =
      if leb_ℤ h.available_slots (pos 0)
      then lit 1 1
      else let task_load = div (of_int h.running_tasks) (of_int h.available_slots) in
        add (mul (lit 1 2) h.cpu_usage) (mul (lit 1 2) task_load)

  -- The struct that `MarshalJSON` encodes: the heartbeat with its load beside it.
  pub record HeartbeatJson : Type 0 where
    pub alias : WorkerHeartbeat Float
    pub load_score : Float

  unfoldable pub marshal_json : Codec HeartbeatJson → WorkerHeartbeat Float → Result String
  marshal_json c h = c.marshal (record { alias = h; load_score = calculate_load h })

module _ {F : Type 0} where
  unfoldable pub validate : WorkerHeartbeat F → Result (Unit {0})
  validate h =
      if str_eq h.worker_id ""
      then err (errorf "worker_id required")
      else if ltb_ℤ h.available_slots (pos 0)
      then err (errorf "available_slots must be non-negative")
      else ok tt

  -- Within 15 seconds of its timestamp, which is in seconds.
  unfoldable pub is_healthy : Time → WorkerHeartbeat F → Bool
  is_healthy now h = leb_ℤ (sub_time now (time_unix h.timestamp)) (pos (15 * second))
