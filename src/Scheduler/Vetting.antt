-- ===== src/Scheduler/Vetting.antt =====
-- internal/scheduler/scheduler.go: the heartbeats that the map of workers holds.
use nimbus_run_a_self_hosted.Prelude.{
  String, ◌≡◌, refl, Option-cases, inl, inr, none, some, List, [], ◌∷◌, arith, lookup, assign,
  discard, All,
}
use nimbus_run_a_self_hosted.Prelude.Exec.{ok, Result-cases}
use nimbus_run_a_self_hosted.Prelude.Members.{Distinct, assign-Distinct}
use nimbus_run_a_self_hosted.Platform.Data.{Codec}
use nimbus_run_a_self_hosted.Platform.Float.{Float64}
use nimbus_run_a_self_hosted.Platform.Redis.{Redis, Message, StreamReply}
use nimbus_run_a_self_hosted.Queue.Types.{WorkerHeartbeat}
use nimbus_run_a_self_hosted.Queue.Heartbeat.{validate}
use nimbus_run_a_self_hosted.Scheduler.Store.{Workers}
use nimbus_run_a_self_hosted.Scheduler.{
  Scheduler, heartbeat_stream, heartbeat_group, take_heartbeat, take_messages, take_streams,
  heartbeat_tick,
}

module _ {V : Type 0} (P : String × V → Type 0) where
  discard-All : (k : String) (m : List (String × V)) → All P m → All P (discard k m)
  unfolding discard
  discard-All k [] h = tt
  discard-All k (e ∷ m) h = ground (arith, discard-All k m h.1)

  assign-All :
      (k : String) (v : V) (m : List (String × V)) → P (k, v) → All P m → All P (assign k v m)
  unfolding assign
  assign-All k v m p h = (p, discard-All k m h)

-- Every entry is a valid heartbeat under the id of its worker, and no worker has two.
pub record IsVetted {F : Type 0} (m : Workers F) : Type 0 where
  pub valid : All (λ e. (validate e.1 ≡ ok tt) × (e.1.worker_id ≡ e.0)) m
  pub distinct : Distinct m

module _ (f : Float64) (r : Redis) (c : Codec (WorkerHeartbeat f.Float)) where
  take_heartbeat-IsVetted :
      (msg : Message) (m : Workers f.Float) (s : r.State)
      → IsVetted m
      → IsVetted (take_heartbeat f r c msg (m, s)).0
  unfolding take_heartbeat
  take_heartbeat-IsVetted msg m s h = elim (Option-cases (lookup "data" msg.values)) [
    | inl e ↦ rw (e, take_heartbeat) h
    | inr (text, e) ↦ elim (Result-cases (c.unmarshal text)) [
      | inr (cause, d) ↦ rw (e, take_heartbeat) (rw (d) h)
      | inl (hb, d) ↦ elim (Result-cases (validate hb)) [
        | inr (cause, v) ↦ rw (e, take_heartbeat) (rw (d) (rw (v) h))
        | inl (_, v) ↦
            rw (e, take_heartbeat)
              (rw (d) (
                rw (v) (record {
                  valid = assign-All _ hb.worker_id hb m (v, refl) h.valid;
                  distinct = assign-Distinct hb.worker_id hb m h.distinct;
                })))
      ]
    ]
  ]

  take_messages-IsVetted :
      (msgs : List Message) (m : Workers f.Float) (s : r.State)
      → IsVetted m
      → IsVetted (take_messages f r c msgs (m, s)).0
  unfolding take_messages
  take_messages-IsVetted [] m s h = h
  take_messages-IsVetted (msg ∷ rest) m s h =
      take_messages-IsVetted rest _ _ (take_heartbeat-IsVetted msg m s h)

  take_streams-IsVetted :
      (streams : List StreamReply) (m : Workers f.Float) (s : r.State)
      → IsVetted m
      → IsVetted (take_streams f r c streams (m, s)).0
  unfolding take_streams
  take_streams-IsVetted [] m s h = h
  take_streams-IsVetted (stream ∷ rest) m s h =
      take_streams-IsVetted rest _ _ (take_messages-IsVetted stream.messages m s h)

  pub heartbeat_tick-IsVetted :
      (s : Scheduler f) (t : r.State)
      → IsVetted s.workers
      → IsVetted (heartbeat_tick f r c s t).0.workers
  unfolding heartbeat_tick
  heartbeat_tick-IsVetted s t h =
      elim (Result-cases (r.x_read_group heartbeat_group "scheduler" heartbeat_stream 100 t).0) [
        | inr (cause, e) ↦ rw (e, heartbeat_tick) h
        | inl (none, e) ↦ rw (e, heartbeat_tick) h
        | inl (some streams, e) ↦ rw (e, heartbeat_tick) (take_streams-IsVetted streams _ _ h)
      ]
