-- ===== src/Database.antt =====
-- internal/db: the connection pool, and the migrations that are run on it.
pub mod Migrations
use Prim.Native.String.{◌++◌ as str_append}
use text.Mathlib.Text.{starts_with}
use nimbus_run_a_self_hosted.Prelude.{ℕ, ◌*◌, String, Bool, List, [], ◌∷◌, str_eq, if◌then◌else◌}
use nimbus_run_a_self_hosted.Prelude.Exec.{
  panicked, Result, ok, err, Exec, pure, raise, attempt, ignore, wrap_with, ◌>>=◌, ◌>>◌,
}
use nimbus_run_a_self_hosted.Platform.Data.{second}

pub record DirEntry : Type 0 where
  pub name : String
  pub is_dir : Bool

-- pgxpool and os. `ping` is given its timeout in nanoseconds.
pub record Server : Type 1 where
  pub State : Type 0
  pub Pool : Type 0
  pub connect : String → Exec State Pool
  pub ping : ℕ → Pool → Exec State (Unit {0})
  pub close : Pool → Exec State (Unit {0})
  pub exec : String → Pool → Exec State (Unit {0})
  pub read_dir : String → Exec State (List DirEntry)
  pub read_file : String → Exec State String

module _ (v : Server) where
  abbrev or_close : v.Pool → Result (Unit {0}) → Exec v.State v.Pool
  or_close pool (ok _) = pure pool
  or_close pool (err cause) = v.close pool >> raise cause

  unfoldable pub new : String → Exec v.State v.Pool
  new database_url = do
    pool ← v.connect database_url
    reached ← attempt (v.ping (5 * second) pool)
    or_close pool reached

  unfoldable pub close : v.Pool → Exec v.State (Unit {0})
  close pool = v.close pool

  unfoldable pub health : v.Pool → Exec v.State (Unit {0})
  health pool = v.ping second pool

  -- One migration: its file is read, and its text executed.
  unfoldable pub migrate : v.Pool → String → String → Exec v.State (Unit {0})
  migrate pool dir name = do
    sql ←
        wrap_with (str_append "reading migration " name)
          (v.read_file (str_append dir (str_append "/" name)))
    wrap_with (str_append "executing migration " name) (v.exec sql pool)

  -- `entry.Name()[0]` panics for an empty name.
  unfoldable pub run_entry : v.Pool → String → DirEntry → Exec v.State (Unit {0})
  run_entry pool dir entry =
      if entry.is_dir
      then pure tt
      else if str_eq entry.name ""
      then raise (panicked "index out of range")
      else if starts_with entry.name "."
      then pure tt
      else migrate pool dir entry.name

  unfoldable pub run_entries : v.Pool → String → List DirEntry → Exec v.State (Unit {0})
  run_entries pool dir [] = pure tt
  run_entries pool dir (entry ∷ rest) = run_entry pool dir entry >> run_entries pool dir rest

  unfoldable pub run_migrations : v.Pool → String → Exec v.State (Unit {0})
  run_migrations pool dir = do
    entries ← wrap_with "reading migrations dir" (v.read_dir dir)
    run_entries pool dir entries
