-- ===== src/Worker/Runner.antt =====
-- internal/worker/container.go: Runner.Run. `elapsed` is the time between the call and its end.
use Prim.Native.String.{◌++◌ as str_append}
use nimbus_run_a_self_hosted.Prelude.{String, true, Option, none, some, [], ◌∷◌, if◌then◌else◌}
use nimbus_run_a_self_hosted.Prelude.Exec.{
  Error, wrapped, ok, err, Exec, pure, attempt, ignore, ◌>>=◌, ◌>>◌,
}
use nimbus_run_a_self_hosted.Prelude.Int.{ℤ, pos, ltb_ℤ, ◌*ℤ◌, int64}
use nimbus_run_a_self_hosted.Platform.Data.{Uuid}
use nimbus_run_a_self_hosted.Platform.Docker.{
  ContainerConfig, RunHostConfig, Waited, cancelled, failed, exited, Docker,
}

pub record RunRequest : Type 0 where
  pub invocation_id : Uuid
  pub image_uri : String
  pub entrypoint : String
  pub payload : String
  pub memory_limit_mb : ℤ
  pub cpu_limit_millicores : ℤ
  pub timeout_seconds : ℤ
  pub container_name : String
  pub max_pids_value : ℤ

pub record ContainerResult : Type 0 where
  pub stdout : String
  pub stderr : String
  pub exit_code : ℤ
  pub duration : ℤ
  pub error : Option Error

abbrev pub failure : ℤ → Error → ContainerResult
failure duration cause = record {
  stdout = "";
  stderr = "";
  exit_code = pos 0;
  duration = duration;
  error = some cause;
}

unfoldable pub max_pids : RunRequest → ℤ
max_pids req = if ltb_ℤ (pos 0) req.max_pids_value then req.max_pids_value else pos 256

unfoldable pub host_config : RunRequest → RunHostConfig
unfolding max_pids
host_config req = record {
  cap_drop = "ALL" ∷ [];
  readonly_rootfs = true;
  network_mode = "none";
  tmpfs_targets = "/tmp" ∷ [];
  auto_remove = true;
  memory = int64 (int64 (req.memory_limit_mb *ℤ pos 1024) *ℤ pos 1024);
  nano_cpus = int64 (req.cpu_limit_millicores *ℤ pos 1000000);
  pids_limit = max_pids req;
}

module _ (d : Docker) where
  unfoldable pub container_config : RunRequest → ContainerConfig
  container_config req = record {
    image = req.image_uri;
    cmd = "python" ∷ "-m" ∷ req.entrypoint ∷ [];
    working_dir = "/app";
    attach_stdout = true;
    attach_stderr = true;
    env =
        str_append "NIMBUS_PAYLOAD=" req.payload
        ∷ str_append "NIMBUS_TIMEOUT=" (d.format_int req.timeout_seconds)
        ∷ [];
  }

  -- The select at the end of `Run`. The goroutine copies an empty buffer, so no output is kept.
  unfoldable pub finish : ℤ → String → Waited → Exec d.State ContainerResult
  finish elapsed id (cancelled cause) = do
    ignore (d.container_kill id)
    pure (failure elapsed cause)
  finish elapsed id (failed cause) = do ignore (d.container_kill id); pure (failure elapsed cause)
  finish elapsed id (exited status) =
      pure
        (record { stdout = ""; stderr = ""; exit_code = status; duration = elapsed; error = none })

  unfoldable pub wait_for : ℤ → String → Exec d.State ContainerResult
  wait_for elapsed id s = finish elapsed id (d.container_wait id s).0 (d.container_wait id s).1

  -- The result carries the error, so the action itself never fails.
  unfoldable pub run : ℤ → RunRequest → Exec d.State ContainerResult
  run elapsed req = do
    pulled ← attempt (d.image_pull req.image_uri)
    elim pulled [
      | err cause ↦ pure (failure (pos 0) (wrapped "pulling image" cause))
      | ok _ ↦ do
        created ←
            attempt (d.container_create (container_config req) (host_config req) req.container_name)
        elim created [
          | err cause ↦ pure (failure (pos 0) (wrapped "creating container" cause))
          | ok id ↦ do
            started ← attempt (d.container_start id)
            elim started [
              | err cause ↦ pure (failure (pos 0) (wrapped "starting container" cause))
              | ok _ ↦ wait_for elapsed id
            ]
        ]
    ]
