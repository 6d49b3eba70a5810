-- ===== src/Examples/Limiting.antt =====
-- The properties of the limits and of the backoff policy at sample values.
use nimbus_run_a_self_hosted.Prelude.{◌≡◌, refl, if◌then◌else◌}
use nimbus_run_a_self_hosted.Prelude.Int.{pos, ◌*ℤ◌}
use nimbus_run_a_self_hosted.Platform.Data.{second}
use nimbus_run_a_self_hosted.Isolation.{default_limits, apply_to_host_config, validate, timeout}
use nimbus_run_a_self_hosted.Isolation.Bounds.{apply_to_host_config_exact}

apply_to_host_config_exact_example :
    let hc = apply_to_host_config default_limits in
    (hc.memory ≡ default_limits.memory_mb *ℤ pos 1048576)
    × (hc.resources_memory ≡ default_limits.memory_mb *ℤ pos 1048576)
    × (hc.nano_cpus ≡ default_limits.cpu_millicores *ℤ pos 1000000)
    × (hc.resources_nano_cpus ≡ default_limits.cpu_millicores *ℤ pos 1000000)
    × (timeout default_limits ≡ default_limits.timeout_seconds *ℤ pos second)
    × (hc.pids_limit ≡ default_limits.max_pids)
    × (hc.network_mode ≡ (if default_limits.network_enabled then "" else "none"))
unfolding validate default_limits
apply_to_host_config_exact_example = apply_to_host_config_exact default_limits refl
