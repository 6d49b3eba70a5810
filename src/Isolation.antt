-- ===== src/Isolation.antt =====
-- internal/isolation/limits.go: ResourceLimits and its conversion to Docker's HostConfig.
pub mod Bounds
use nimbus_run_a_self_hosted.Prelude.{
  ℕ, String, Bool, true, false, not, ◌||◌, List, [], ◌∷◌, if◌then◌else◌,
}
use nimbus_run_a_self_hosted.Prelude.Exec.{Error, errorf, Result, ok, err}
use nimbus_run_a_self_hosted.Prelude.Int.{ℤ, pos, ltb_ℤ, ◌*ℤ◌, int64}
use nimbus_run_a_self_hosted.Platform.Data.{second}

pub record ResourceLimits : Type 0 where
  pub memory_mb : ℤ
  pub cpu_millicores : ℤ
  pub timeout_seconds : ℤ
  pub max_pids : ℤ
  pub network_enabled : Bool
  pub read_only_filesystem : Bool
  pub non_root : Bool
  pub scratch_size_mb : ℤ

unfoldable pub default_limits : ResourceLimits
default_limits = record {
  memory_mb = pos 128;
  cpu_millicores = pos 100;
  timeout_seconds = pos 30;
  max_pids = pos 256;
  network_enabled = false;
  read_only_filesystem = true;
  non_root = true;
  scratch_size_mb = pos 64;
}

-- The fields of `container.HostConfig` that the program sets, as it writes them: `Memory` and
-- `NanoCPUs` both directly and under `Resources`. In Docker's type the direct ones are those of the
-- embedded `Resources`, which a literal cannot name.
pub record HostConfig : Type 0 where
  pub memory : ℤ
  pub nano_cpus : ℤ
  pub resources_memory : ℤ
  pub resources_nano_cpus : ℤ
  pub pids_limit : ℤ
  pub readonly_rootfs : Bool
  pub network_mode : String

unfoldable pub apply_to_host_config : ResourceLimits → HostConfig
apply_to_host_config r =
    let mem_bytes = int64 (int64 (r.memory_mb *ℤ pos 1024) *ℤ pos 1024) in
    let nano_cpus = int64 (r.cpu_millicores *ℤ pos 1000000) in
    record {
      memory = mem_bytes;
      nano_cpus = nano_cpus;
      resources_memory = mem_bytes;
      resources_nano_cpus = nano_cpus;
      pids_limit = r.max_pids;
      readonly_rootfs = r.read_only_filesystem;
      network_mode = if not r.network_enabled then "none" else "";
    }

unfoldable pub security_config : ResourceLimits → List String × String
security_config r = ("ALL" ∷ [], if r.non_root then "1000:1000" else "")

abbrev outside : ℕ → ℕ → ℤ → Bool
outside lo hi x = ltb_ℤ x (pos lo) || ltb_ℤ (pos hi) x

-- The messages are the format strings, without the numbers that they show.
unfoldable pub validate : ResourceLimits → Result (Unit {0})
validate r =
    if outside 32 4096 r.memory_mb
    then err (errorf "memory limit out of range [32, 4096]")
    else if outside 50 2000 r.cpu_millicores
    then err (errorf "CPU limit out of range [50, 2000]")
    else if outside 1 300 r.timeout_seconds
    then err (errorf "timeout out of range [1, 300]")
    else if outside 16 1024 r.max_pids
    then err (errorf "PID limit out of range [16, 1024]")
    else ok tt

unfoldable pub timeout : ResourceLimits → ℤ
timeout r = int64 (r.timeout_seconds *ℤ pos second)
