-- ===== src/Build.antt =====
-- internal/build/docker.go: Builder. The file system, the tar writer and Docker are parameters.
pub mod Cleanup
use Prim.Native.String.{◌++◌ as str_append}
use text.Mathlib.Text.{find?}
use nimbus_run_a_self_hosted.Prelude.{
  ℕ, String, Bool, true, false, not, Option, none, some, List, [], ◌∷◌, if◌then◌else◌, is_some,
}
use nimbus_run_a_self_hosted.Prelude.Exec.{
  Error, errorf, wrapped, Result, ok, err, Exec, pure, raise, finally, ◌>>=◌, ◌>>◌,
}
use nimbus_run_a_self_hosted.Prelude.Int.{ℤ}

-- What `filepath.Walk` passes to its function, besides an error.
pub record FileInfo : Type 0 where
  pub path : String
  pub is_dir : Bool
  pub size : ℤ
  pub mode : ℤ

-- `tar.Header`
pub record Header : Type 0 where
  pub name : String
  pub size : ℤ
  pub mode : ℤ

pub record ImageBuildOptions : Type 0 where
  pub tags : List String
  pub dockerfile : String
  pub remove : Bool
  pub pull_parent : Bool

-- `Writer` is a `tar.Writer` with its buffer, `Body` the body of Docker's reply.
pub record Machine : Type 1 where
  pub State : Type 0
  pub Writer : Type 0
  pub Body : Type 0
  pub mkdir_temp : String → String → Exec State String
  pub remove_all : String → Exec State (Unit {0})
  pub write_file : String → String → ℕ → Exec State (Unit {0})
  pub join : String → String → String
  pub rel : String → String → Result String
  -- The entries in the order of the walk, each with the error that the walk met there.
  pub walk : String → State → List (FileInfo × Option Error)
  pub new_writer : Writer
  pub write_header : Header → Writer → Result Writer
  -- `os.Open`, `io.Copy` to the writer, and `f.Close`.
  pub copy_file : String → Writer → Exec State Writer
  pub close_writer : Writer → Writer
  pub image_build : Writer → ImageBuildOptions → Exec State Body
  pub read_all : Body → Exec State String
  pub close_body : Body → Exec State (Unit {0})
  pub image_push : String → Exec State (Unit {0})
  pub image_remove : String → Bool → Exec State (Unit {0})
  pub exists : State → String → Bool

pub record Builder : Type 0 where
  pub registry : String
  pub work_dir : String

pub record BuildResult : Type 0 where
  pub image_uri : String
  pub logs : String
  pub error : Option Error

abbrev pub failed : String → Error → BuildResult
failed logs cause = record { image_uri = ""; logs = logs; error = some cause }

unfoldable pub generate_dockerfile : String → String
generate_dockerfile entrypoint = str_append "FROM python:3.12-slim\n" (
    str_append "WORKDIR /app\n" (
      str_append "COPY requirements.txt .\n" (
        str_append "RUN pip install --no-cache-dir -r requirements.txt\n" (
          str_append "COPY . .\n" (
            str_append "USER 1000:1000\n"
              (str_append "ENTRYPOINT [\"python\", \"-m\", \"" (str_append entrypoint "\"]\n")))))))

abbrev pub contains : String → String → Bool
contains s t = is_some (find? s t)

abbrev pub options : String → ImageBuildOptions
options image_tag = record {
  tags = image_tag ∷ [];
  dockerfile = "Dockerfile";
  remove = true;
  pull_parent = true;
}

module _ (h : Machine) where
  -- Nothing is extracted.
  unfoldable pub extract_zip : String → String → Exec h.State (Unit {0})
  extract_zip src dest = pure tt

  module _ {A : Type 0} where
    abbrev pub result_or :
        String → String → (A → Exec h.State BuildResult) → Result A → Exec h.State BuildResult
    result_or logs message rest (ok a) = rest a
    result_or logs message rest (err cause) = pure (failed logs (wrapped message cause))

    -- `if err != nil { return &BuildResult{…} }`
    abbrev pub or_fail :
        String → String → Exec h.State A → (A → Exec h.State BuildResult) → Exec h.State BuildResult
    or_fail logs message m rest s = result_or logs message rest (m s).0 (m s).1

  -- The function that `filepath.Walk` calls, for an entry without an error.
  unfoldable pub add_entry : String → FileInfo → h.Writer → Exec h.State h.Writer
  add_entry dir info tw = if info.is_dir then pure tw else do
    rel_path ← (λ s. (h.rel dir info.path, s))
    tw' ← (λ s.
        (h.write_header (record { name = rel_path; size = info.size; mode = info.mode }) tw, s))
    h.copy_file info.path tw'

  -- The walk; an error of the function ends it.
  unfoldable pub add_entries :
      String → List (FileInfo × Option Error) → h.Writer → Exec h.State h.Writer
  add_entries dir [] tw = pure tw
  add_entries dir ((info, some cause) ∷ rest) tw = raise cause
  add_entries dir ((info, none) ∷ rest) tw = do
    tw' ← add_entry dir info tw
    add_entries dir rest tw'

  unfoldable pub create_build_context : String → Exec h.State h.Writer
  create_build_context dir s =
      ((add_entries dir (h.walk dir s) h.new_writer) >>= λ tw. pure (h.close_writer tw)) s

  unfoldable pub push_image : String → Exec h.State (Unit {0})
  push_image image_tag = h.image_push image_tag

  unfoldable pub cleanup : String → Exec h.State (Unit {0})
  cleanup image_tag = h.image_remove image_tag true

  -- `BuildFromZip` once the logs are read.
  unfoldable pub judge : String → String → Exec h.State BuildResult
  judge image_tag logs =
      if contains logs "error"
      then pure (failed logs (errorf "build failed"))
      else or_fail logs "pushing image" (push_image image_tag)
          λ _. pure (record { image_uri = image_tag; logs = logs; error = none })

  -- `BuildFromZip` in its temporary directory.
  unfoldable pub build_in : String → String → String → String → Exec h.State BuildResult
  build_in image_tag zip_path entrypoint tmp_dir =
      or_fail "" "extracting zip" (extract_zip zip_path tmp_dir) λ _.
        or_fail "" "writing dockerfile"
          (h.write_file (h.join tmp_dir "Dockerfile") (generate_dockerfile entrypoint) 420)
          λ _. or_fail "" "creating build context" (create_build_context tmp_dir) λ build_ctx.
            or_fail "" "building image" (h.image_build build_ctx (options image_tag)) λ body.
              finally
                (or_fail "" "reading build logs" (h.read_all body) λ logs. judge image_tag logs)
                (h.close_body body)

  -- `stamp` is `time.Now().Format("v20060102-150405")`.
  unfoldable pub image_tag_of : Builder → String → String → String
  image_tag_of b function_name stamp =
      str_append b.registry (str_append "/" (str_append function_name (str_append ":" stamp)))

  unfoldable pub build_from_zip :
      Builder → String → String → String → String → Exec h.State BuildResult
  unfolding image_tag_of
  build_from_zip b stamp function_name zip_path entrypoint =
      or_fail "" "creating temp dir" (h.mkdir_temp b.work_dir "nimbus-build-*") λ tmp_dir.
        finally (build_in (image_tag_of b function_name stamp) zip_path entrypoint tmp_dir)
          (h.remove_all tmp_dir)
