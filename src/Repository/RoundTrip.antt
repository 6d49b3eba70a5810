-- ===== src/Repository/RoundTrip.antt =====
-- internal/repository: what a row that was inserted reads as.
use mathlib.Core.List.{map}
use nimbus_run_a_self_hosted.Prelude.{
  String, ◌≡◌, refl, ◌∙◌, ap, Bool, true, List, [], ◌∷◌, ◌++◌, select, lookup, arith, inl, inr,
  Bool-cases,
}
use nimbus_run_a_self_hosted.Prelude.Exec.{ok}
use nimbus_run_a_self_hosted.Platform.Data.{Uuid, Time}
use nimbus_run_a_self_hosted.Platform.Postgres.{
  Postgres, IsPostgres, Value, uuid, insert, by_key, cell, has, pair_up,
}
use nimbus_run_a_self_hosted.Models.{Function, FunctionVersion, Invocation}
use nimbus_run_a_self_hosted.Repository.Rows.{scan_first}
use nimbus_run_a_self_hosted.Repository.Functions
use nimbus_run_a_self_hosted.Repository.Versions
use nimbus_run_a_self_hosted.Repository.Invocations

select_new :
    {A : Type 0} (p : A → Bool) (xs : List A) (x : A)
    → select p xs ≡ []
    → p x ≡ true
    → select p (xs ++ x ∷ []) ≡ x ∷ []
select_new p [] x none here = ground (arith, here)
select_new p (y ∷ ys) x none here = elim (Bool-cases (p y)) [
  | inl kept ↦ absurd (ground (arith, kept))
  | inr dropped ↦ ground (arith, dropped, select_new p ys x (ground (arith, dropped)) here)
]

module _ (p : Postgres) (laws : IsPostgres p) where
  -- A key that no row had is found once its row is inserted.
  pub found_new :
      (s : p.State) (table key : String) (v : Value) (columns cs : List String) (vs : List Value)
      (found : List (List Value))
      → select (has key v) (p.rows s table) ≡ []
      → (p.exec (insert table cs vs) s).0 ≡ ok tt
      → has key v (pair_up cs vs ++ p.defaults s table) ≡ true
      → (p.query (by_key columns table key v) (p.exec (insert table cs vs) s).1).0 ≡ ok found
      → found ≡ map (cell (pair_up cs vs ++ p.defaults s table)) columns ∷ []
  found_new s table key v columns cs vs found fresh done here asked =
      laws.query_ok _ columns table key v found asked
      ∙ ap (λ rows. map (λ r. map (cell r) columns) (select (has key v) rows))
          (laws.insert_ok s table cs vs done)
      ∙ ap (map λ r. map (cell r) columns)
          (select_new (has key v) (p.rows s table) (pair_up cs vs ++ p.defaults s table) fresh here)

  -- If no invocation has the id, and an invocation is created under it, then reading that id, if the
  -- query succeeds, returns the invocation, with the creation time that the database has set.
  pub get_by_id-create_invocation :
      (s : p.State) (inv : Invocation) (created : Time) (found : List (List Value))
      → select (has "id" (uuid inv.id)) (p.rows s "invocations") ≡ []
      → p.scan_time (cell (p.defaults s "invocations") "created_at") ≡ ok created
      → (Invocations.create p inv s).0 ≡ ok tt
      → (p.query
          (by_key Invocations.select_columns "invocations" "id" (uuid inv.id))
          (Invocations.create p inv s).1).0
        ≡ ok found
      → (Invocations.get_by_id p inv.id (Invocations.create p inv s).1).0
        ≡ ok (record inv { created_at = created })
  unfolding Invocations.create Invocations.get_by_id Invocations.scan_invocation scan_first lookup
  get_by_id-create_invocation s inv created found fresh stamped done asked =
      let only =
        found_new s "invocations" "id" (uuid inv.id) Invocations.select_columns
          Invocations.insert_columns (Invocations.values_of inv) found fresh done (ground arith)
          asked in
      rw
        (
          asked,
          only,
          laws.scan_uuid_ok inv.id,
          laws.scan_uuid_ok inv.function_id,
          laws.scan_uuid_ok inv.version_id,
          laws.scan_uuid_ok inv.worker_id,
          laws.scan_text_ok inv.status,
          laws.scan_int_ok inv.duration_ms,
          laws.scan_bool_ok inv.cold_start,
          laws.scan_int_ok inv.retry_count,
          laws.scan_text_ok inv.error_msg,
          laws.scan_text_ok inv.idemp_key,
          stamped,
        )
        refl

  -- If no function has the id, and a function is created under it, then reading that id, if the query
  -- succeeds, returns the function, with the active version and the times that the database has set.
  pub get_by_id-create_function :
      (s : p.State) (fn : Function) (active_version_id_ : Uuid) (created_at_ : Time)
      (updated_at_ : Time) (found : List (List Value))
      → select (has "id" (uuid fn.id)) (p.rows s "functions") ≡ []
      → p.scan_uuid (cell (p.defaults s "functions") "active_version_id") ≡ ok active_version_id_
      → p.scan_time (cell (p.defaults s "functions") "created_at") ≡ ok created_at_
      → p.scan_time (cell (p.defaults s "functions") "updated_at") ≡ ok updated_at_
      → (Functions.create p fn s).0 ≡ ok tt
      → (p.query
          (by_key Functions.select_columns "functions" "id" (uuid fn.id))
          (Functions.create p fn s).1).0
        ≡ ok found
      → (Functions.get_by_id p fn.id (Functions.create p fn s).1).0
        ≡ ok (record fn {
          active_version_id = active_version_id_;
          created_at = created_at_;
          updated_at = updated_at_;
        })
  unfolding Functions.create Functions.get_by_id Functions.scan_function scan_first lookup
  get_by_id-create_function s fn active_version_id_ created_at_ updated_at_ found fresh h0 h1 h2
        done asked =
      let only =
        found_new s "functions" "id" (uuid fn.id) Functions.select_columns Functions.insert_columns
          (Functions.values_of fn) found fresh done (ground arith) asked in
      rw
        (
          asked,
          only,
          laws.scan_uuid_ok fn.id,
          laws.scan_uuid_ok fn.user_id,
          laws.scan_text_ok fn.name,
          laws.scan_text_ok fn.entrypoint,
          laws.scan_int_ok fn.memory_limit,
          laws.scan_int_ok fn.cpu_limit,
          laws.scan_int_ok fn.timeout,
          laws.scan_int_ok fn.max_concurrency,
          h0,
          h1,
          h2,
        )
        refl

  -- If no version has the id, and a version is created under it, then reading that id, if the query
  -- succeeds, returns the version, with the creation time that the database has set.
  pub get_by_id-create_version :
      (s : p.State) (v : FunctionVersion) (created_at_ : Time) (found : List (List Value))
      → select (has "id" (uuid v.id)) (p.rows s "function_versions") ≡ []
      → p.scan_time (cell (p.defaults s "function_versions") "created_at") ≡ ok created_at_
      → (Versions.create p v s).0 ≡ ok tt
      → (p.query
          (by_key Versions.select_columns "function_versions" "id" (uuid v.id))
          (Versions.create p v s).1).0
        ≡ ok found
      → (Versions.get_by_id p v.id (Versions.create p v s).1).0
        ≡ ok (record v { created_at = created_at_ })
  unfolding Versions.create Versions.get_by_id Versions.scan_version scan_first lookup
  get_by_id-create_version s v created_at_ found fresh h0 done asked =
      let only =
        found_new s "function_versions" "id" (uuid v.id) Versions.select_columns
          Versions.insert_columns (Versions.values_of v) found fresh done (ground arith) asked in
      rw
        (
          asked,
          only,
          laws.scan_uuid_ok v.id,
          laws.scan_uuid_ok v.function_id,
          laws.scan_int_ok v.version_num,
          laws.scan_text_ok v.image_uri,
          laws.scan_text_ok v.status,
          h0,
        )
        refl
