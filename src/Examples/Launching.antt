-- ===== src/Examples/Launching.antt =====
-- The properties of builds, migrations and the configuration on machines in memory.
use nimbus_run_a_self_hosted.Prelude.{
  String, ◌≡◌, refl, Bool, true, false, List, [], ◌∷◌, ◌++◌, map, select, arith, eq_iff, str_eq,
  if◌then◌else◌,
}
use nimbus_run_a_self_hosted.Prelude.Exec.{ok}
use nimbus_run_a_self_hosted.Build.{Machine, Builder, BuildResult, image_tag_of, build_from_zip}
use nimbus_run_a_self_hosted.Build.Cleanup.{IsMachine, Verdict, Cleaned, build_from_zip_lem}
use nimbus_run_a_self_hosted.Database.{
  DirEntry, Server, migrate, run_entry, run_entries, run_migrations,
}
use nimbus_run_a_self_hosted.Database.Migrations.{
  IsServer, Executed, is_migration, run_migrations_lem,
}

-- A machine whose state tells which directories are there.
abbrev disk : Machine
disk = record {
  State = String → Bool;
  Writer = Unit {0};
  Body = Unit {0};
  mkdir_temp = λ dir pattern s. (ok "/tmp/b1", λ d. if str_eq d "/tmp/b1" then true else s d);
  remove_all = λ dir s. (ok tt, λ d. if str_eq d dir then false else s d);
  write_file = λ path content mode s. (ok tt, s);
  join = λ a b. b;
  rel = λ base path. ok path;
  walk = λ dir s. [];
  new_writer = tt;
  write_header = λ h w. ok w;
  copy_file = λ path w s. (ok w, s);
  close_writer = λ w. w;
  image_build = λ w o s. (ok tt, s);
  read_all = λ b s. (ok "Successfully built 1234", s);
  close_body = λ b s. (ok tt, s);
  image_push = λ tag s. (ok tt, s);
  image_remove = λ tag force s. (ok tt, s);
  exists = λ s d. s d;
}

disk-IsMachine : IsMachine disk
disk-IsMachine = record { removed = λ dir s. ground (arith, eq_iff dir dir) }

abbrev builder : Builder
builder = record { registry = "localhost:5000"; work_dir = "/tmp" }

build_from_zip_lem_example :
    (result : BuildResult) × ((build_from_zip disk builder "v1" "hello" "hello.zip" "main"
        (λ d. false)).0
      ≡ ok result)
    × Verdict disk (image_tag_of disk builder "hello" "v1") result
    × Cleaned disk builder
        (λ d. false)
        (build_from_zip disk builder "v1" "hello" "hello.zip" "main" (λ d. false)).1
build_from_zip_lem_example =
    build_from_zip_lem disk disk-IsMachine builder "v1" "hello" "hello.zip" "main" (λ d. false)

abbrev pub folder : List DirEntry
folder =
    record { name = ".keep"; is_dir = false }
    ∷ record { name = "001_init.sql"; is_dir = false }
    ∷ record { name = "old"; is_dir = true }
    ∷ record { name = "002_users.sql"; is_dir = false }
    ∷ []

-- A server whose state is the texts that it has executed; a file holds its path.
abbrev pub recorder : Server
recorder = record {
  State = List String;
  Pool = Unit {0};
  connect = λ url s. (ok tt, s);
  ping = λ timeout pool s. (ok tt, s);
  close = λ pool s. (ok tt, s);
  exec = λ sql pool s. (ok tt, s ++ sql ∷ []);
  read_dir = λ dir s. (ok folder, s);
  read_file = λ path s. (ok path, s);
}

recorder-IsServer : IsServer recorder (λ s. s)
recorder-IsServer = record { read_keeps = λ path s. refl; exec_ok = λ sql pool s e. refl }

run_migrations_lem_example :
    (texts : List String) × Executed recorder tt "migrations"
      (map (λ entry. entry.name) (select is_migration folder))
      []
      (run_migrations recorder tt "migrations" []).1
      texts
    × ((run_migrations recorder tt "migrations" []).1 ≡ [] ++ texts)
unfolding run_migrations run_entries run_entry migrate
run_migrations_lem_example =
    run_migrations_lem recorder (λ s. s) recorder-IsServer tt "migrations" [] folder refl refl
