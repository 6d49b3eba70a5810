-- ===== src/Queue/Freshness.antt =====
-- internal/queue/types.go: `IsHealthy` against the exact difference of the two times.
use nimbus_run_a_self_hosted.Prelude.{
  ◌+◌, ◌*◌, ◌-◌, ◌^◌, ◌≡◌, sym, subst, ◌↔◌, ◌∙◌, ap, inl, inr, Bool, true, false, ◌&&◌, arith,
  Bool-cases, ℕ, ◌≤◌, ◌<◌,
}
use nimbus_run_a_self_hosted.Prelude.Int.{
  ℤ, pos, negsuc, ◌-ℤ◌, ◌+ℤ◌, ◌*ℤ◌, ◌≤ℤ◌, ◌<ℤ◌, leb_ℤ, int64, InInt64, int64_of_InInt64,
}
use nimbus_run_a_self_hosted.Platform.Data.{Time, second}
use nimbus_run_a_self_hosted.Queue.Types.{WorkerHeartbeat}
use nimbus_run_a_self_hosted.Queue.Heartbeat.{sub_time, time_unix, is_healthy, unix_to_internal}

-- The last timestamp that `time.Unix` turns into a time without wrapping around.
abbrev pub last_second : ℤ
last_second = pos 9223371974719179007

shift_in : (t : ℤ) → InInt64 t → t ≤ℤ last_second → InInt64 (t +ℤ pos unix_to_internal)
unfolding ◌+ℤ◌
shift_in (pos n) range small = ground arith
shift_in (negsuc n) range small = ground arith

shift_back : (t : ℤ) → (t +ℤ pos unix_to_internal) -ℤ pos unix_to_internal ≡ t
unfolding ◌+ℤ◌ ◌-ℤ◌
shift_back (pos n) = ground arith
shift_back (negsuc n) = ground arith

time_unix_small : (t : ℤ) → InInt64 t → t ≤ℤ last_second → time_unix t ≡ t *ℤ pos second
unfolding time_unix
time_unix_small t range small =
    ap (λ x. (x -ℤ pos unix_to_internal) *ℤ pos second)
      (int64_of_InInt64 (t +ℤ pos unix_to_internal) (shift_in t range small))
    ∙ ap (λ x. x *ℤ pos second) (shift_back t)

int64_over : (n : ℕ) → 2 ^ 63 ≤ n → n < 2 ^ 64 → int64 (pos n) ≡ negsuc (2 ^ 64 - n - 1)
unfolding int64
int64_over n low high = ground arith

add_pos : (a b : ℕ) → pos a +ℤ pos b ≡ pos (a + b)
unfolding ◌+ℤ◌
add_pos a b = ground arith

far_back :
    (n : ℕ)
    → 2 ^ 63 ≤ n
    → n < 2 ^ 64
    → n ≤ 9223372036854775807 + unix_to_internal
    → (negsuc (2 ^ 64 - n - 1) -ℤ pos unix_to_internal) *ℤ pos second
      ≤ℤ negsuc (9223372036854775807 * second)
unfolding ◌-ℤ◌ ◌*ℤ◌
far_back n low high bound = ground arith

time_unix_large :
    (t : ℤ) → InInt64 t → last_second <ℤ t → time_unix t ≤ℤ negsuc (9223372036854775807 * second)
unfolding time_unix
time_unix_large (pos n) range large =
    let sum = n + unix_to_internal in
    let wrapped : int64 (pos n +ℤ pos unix_to_internal) ≡ negsuc (2 ^ 64 - sum - 1) =
      ap int64 (add_pos n unix_to_internal) ∙ int64_over sum (omega arith) (omega arith) in
    subst (λ x. (x -ℤ pos unix_to_internal) *ℤ pos second ≤ℤ negsuc (9223372036854775807 * second))
      (sym wrapped) (far_back sum (omega arith) (omega arith) (omega arith))
time_unix_large (negsuc n) range large = absurd (omega arith)

healthy_small :
    (now u ts : ℤ)
    → u ≡ ts *ℤ pos second
    → (leb_ℤ (sub_time now u) (pos (15 * second)) ≡ true)
      ↔ (now ≤ℤ ts *ℤ pos second +ℤ pos (15 * second))
unfolding sub_time ◌-ℤ◌ ◌+ℤ◌
healthy_small now u ts e = rw (e) (λ h. ground arith, λ h. ground arith)

healthy_large :
    (now u : ℤ)
    → pos 0 ≤ℤ now
    → u ≤ℤ negsuc (9223372036854775807 * second)
    → leb_ℤ (sub_time now u) (pos (15 * second)) ≡ false
unfolding sub_time ◌-ℤ◌
healthy_large now u clock far = ground arith

-- On a clock past 1970, `IsHealthy` holds exactly while at most 15 seconds have passed since the
-- heartbeat's timestamp, although the subtraction of times saturates; a timestamp in the future counts
-- as healthy, unless it is so late that the seconds of its time wrap around an int64.
pub is_healthy_iff :
    {F : Type 0} (now : Time) (h : WorkerHeartbeat F)
    → pos 0 ≤ℤ now
    → InInt64 h.timestamp
    → (is_healthy now h ≡ true)
      ↔ ((h.timestamp ≤ℤ last_second) × (now ≤ℤ h.timestamp *ℤ pos second +ℤ pos (15 * second)))
unfolding is_healthy
is_healthy_iff now h clock range = elim (Bool-cases (leb_ℤ h.timestamp last_second)) [
  | inl small ↦
      let le : h.timestamp ≤ℤ last_second = ground (arith, small) in
      let same =
        healthy_small now (time_unix h.timestamp) h.timestamp
          (time_unix_small h.timestamp range le) in
      (λ e. (le, same.0 e), λ p. same.1 p.1)
  | inr large ↦
      let stale =
        healthy_large now (time_unix h.timestamp) clock
          (time_unix_large h.timestamp range (ground (arith, large))) in
      (λ e. absurd (ground (arith, stale, e)), λ p. absurd (ground (arith, large, p.0)))
]

-- Such a timestamp, at most 15 seconds before the given time or after it.
abbrev pub fresh : {F : Type 0} → Time → WorkerHeartbeat F → Bool
fresh now h =
    leb_ℤ h.timestamp last_second && leb_ℤ now (h.timestamp *ℤ pos second +ℤ pos (15 * second))

pub is_healthy-fresh :
    {F : Type 0} (now : Time) (h : WorkerHeartbeat F)
    → pos 0 ≤ℤ now
    → InInt64 h.timestamp
    → is_healthy now h ≡ fresh now h
is_healthy-fresh now h clock range =
    let same = is_healthy_iff now h clock range in
    elim (Bool-cases (is_healthy now h)) [
      | inl healthy ↦ ground (arith, healthy, same.0 healthy)
      | inr stale ↦ elim (Bool-cases (fresh now h)) [
        | inl held ↦
            absurd (ground (arith, stale, same.1 (ground (arith, held), ground (arith, held))))
        | inr late ↦ stale ∙ ground (arith, late)
      ]
    ]
