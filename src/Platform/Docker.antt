-- ===== src/Platform/Docker.antt =====
-- The Docker client. What a container does is not modelled: waiting for it ends in one of the three
-- ways that the worker selects on.
use nimbus_run_a_self_hosted.Prelude.{String, Bool, List}
use nimbus_run_a_self_hosted.Prelude.Exec.{Error, Exec}
use nimbus_run_a_self_hosted.Prelude.Int.{ℤ}

-- The fields of `container.Config` that the worker sets.
pub record ContainerConfig : Type 0 where
  pub image : String
  pub cmd : List String
  pub working_dir : String
  pub attach_stdout : Bool
  pub attach_stderr : Bool
  pub env : List String

-- The fields of `container.HostConfig` that the worker sets.
pub record RunHostConfig : Type 0 where
  pub cap_drop : List String
  pub readonly_rootfs : Bool
  pub network_mode : String
  pub tmpfs_targets : List String
  pub auto_remove : Bool
  pub memory : ℤ
  pub nano_cpus : ℤ
  pub pids_limit : ℤ

-- `ctx.Done()`, the wait's error channel, or the container's exit status.
pub data Waited : Type 0 where
  cancelled failed : Error → Waited
  exited : ℤ → Waited

pub record Docker : Type 1 where
  pub State : Type 0
  pub image_pull : String → Exec State (Unit {0})
  pub container_create : ContainerConfig → RunHostConfig → String → Exec State String
  pub container_start : String → Exec State (Unit {0})
  pub container_wait : String → State → Waited × State
  pub container_kill : String → Exec State (Unit {0})
  pub format_int : ℤ → String
