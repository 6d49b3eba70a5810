-- ===== src/Isolation/Bounds.antt =====
-- internal/isolation/limits.go: what `Validate` accepts, and that the conversions are exact on it.
use nimbus_run_a_self_hosted.Prelude.{ℕ, ◌≡◌, ◌↔◌, refl, arith, if◌then◌else◌}
use nimbus_run_a_self_hosted.Prelude.Exec.{ok}
use nimbus_run_a_self_hosted.Prelude.Int.{ℤ, pos, negsuc, ◌≤ℤ◌, ◌*ℤ◌, int64}
use nimbus_run_a_self_hosted.Platform.Data.{second}
use nimbus_run_a_self_hosted.Isolation.{ResourceLimits, apply_to_host_config, validate, timeout}

abbrev pub Between : ℕ → ℕ → ℤ → Type 0
Between lo hi x = (pos lo ≤ℤ x) × (x ≤ℤ pos hi)

pub record IsSafe (r : ResourceLimits) : Type 0 where
  pub memory : Between 32 4096 r.memory_mb
  pub cpu : Between 50 2000 r.cpu_millicores
  pub seconds : Between 1 300 r.timeout_seconds
  pub pids : Between 16 1024 r.max_pids

-- `Validate` returns no error exactly for limits with 32 to 4096 MB, 50 to 2000 millicores, 1 to 300
-- seconds and 16 to 1024 processes.
pub validate_iff : (r : ResourceLimits) → (validate r ≡ ok tt) ↔ IsSafe r
unfolding validate
validate_iff r = (λ h. ground arith, λ h. ground arith)

-- A product by a constant that stays far below 2 ^ 63 is the product in an int64.
memory_exact :
    (m : ℤ) → Between 32 4096 m → int64 (int64 (m *ℤ pos 1024) *ℤ pos 1024) ≡ m *ℤ pos 1048576
unfolding ◌*ℤ◌ int64
memory_exact (pos m) h = ground arith
memory_exact (negsuc m) h = absurd (omega arith)

cpu_exact : (c : ℤ) → Between 50 2000 c → int64 (c *ℤ pos 1000000) ≡ c *ℤ pos 1000000
unfolding ◌*ℤ◌ int64
cpu_exact (pos c) h = ground arith
cpu_exact (negsuc c) h = absurd (omega arith)

seconds_exact : (t : ℤ) → Between 1 300 t → int64 (t *ℤ pos second) ≡ t *ℤ pos second
unfolding ◌*ℤ◌ int64
seconds_exact (pos t) h = ground arith
seconds_exact (negsuc t) h = absurd (omega arith)

-- For limits that `Validate` accepts, the conversion to Docker's settings does not wrap: memory is
-- the megabytes times 1024 * 1024 in both places, the CPU quota the millicores times a million in
-- both places, the timeout the seconds times a billion, and the process limit the limit; the network
-- mode is "none" unless the network is enabled.
pub apply_to_host_config_exact :
    (r : ResourceLimits)
    → validate r ≡ ok tt
    → let hc = apply_to_host_config r in
      (hc.memory ≡ r.memory_mb *ℤ pos 1048576)
      × (hc.resources_memory ≡ r.memory_mb *ℤ pos 1048576)
      × (hc.nano_cpus ≡ r.cpu_millicores *ℤ pos 1000000)
      × (hc.resources_nano_cpus ≡ r.cpu_millicores *ℤ pos 1000000)
      × (timeout r ≡ r.timeout_seconds *ℤ pos second)
      × (hc.pids_limit ≡ r.max_pids)
      × (hc.network_mode ≡ (if r.network_enabled then "" else "none"))
unfolding apply_to_host_config timeout
apply_to_host_config_exact r h =
    let safe = (validate_iff r).0 h in
    let memory = memory_exact r.memory_mb safe.memory in
    let cpu = cpu_exact r.cpu_millicores safe.cpu in
    (memory, memory, cpu, cpu, seconds_exact r.timeout_seconds safe.seconds, refl, ground arith)
