-- ===== src/Http/Deploying.antt =====
-- internal/http/handler/function_handler.go: the version that `Deploy` adds.
use nimbus_run_a_self_hosted.Prelude.{
  All, select, ◌≡◌, refl, sym, ap, ◌∙◌, subst, inl, inr, [], ◌∷◌, ◌++◌, arith, lookup,
}
use nimbus_run_a_self_hosted.Prelude.Members.{In, In-All, In-select}
use nimbus_run_a_self_hosted.Prelude.Int.{ℤ, pos, ◌+ℤ◌, ◌≤ℤ◌, ◌<ℤ◌}
use nimbus_run_a_self_hosted.Prelude.Exec.{ok, Result-cases}
use nimbus_run_a_self_hosted.Platform.Data.{Uuid}
use nimbus_run_a_self_hosted.Platform.Postgres.{
  Row, Value, int, text, uuid, bool, time, null, cell, has, pair_up,
}
use nimbus_run_a_self_hosted.Platform.Gin.{Response, Context}
use nimbus_run_a_self_hosted.Models.{FunctionVersion}
use nimbus_run_a_self_hosted.Repository.Functions
use nimbus_run_a_self_hosted.Repository.Versions
use nimbus_run_a_self_hosted.Repository.Reads.{
  function_rows, latest_rows, latest_version_number-bound,
}
use nimbus_run_a_self_hosted.Env.{Env, IsEnv, World}
use nimbus_run_a_self_hosted.Http.Functions.{queued_version, build, deploy_found, deploy}

n<n+1 : (n last : ℤ) → n ≤ℤ last → n <ℤ last +ℤ pos 1
unfolding ◌+ℤ◌
n<n+1 n last h = ground (arith, h)

-- A number in a column is below another.
abbrev pub IsLess : Value → ℤ → Type 0
IsLess (int n) m = n <ℤ m
IsLess (text s) m = Unit {0}
IsLess (uuid id) m = Unit {0}
IsLess (bool b) m = Unit {0}
IsLess (time t) m = Unit {0}
IsLess null m = Unit {0}

bounded-IsLess :
    (v : Value) (last : ℤ) → ((n : ℤ) → v ≡ int n → n ≤ℤ last) → IsLess v (last +ℤ pos 1)
bounded-IsLess (int n) last h = n<n+1 n last (h n refl)
bounded-IsLess (text s) last h = tt
bounded-IsLess (uuid id) last h = tt
bounded-IsLess (bool b) last h = tt
bounded-IsLess (time t) last h = tt
bounded-IsLess null last h = tt

module _ (e : Env) (laws : IsEnv e) where
  -- The database between the insertion of the new version and the update of its status.
  pub record Deployed (fn_id : Uuid) (w after : World e) : Type 0 where
    pub number : ℤ
    pub inserted : e.postgres.State
    pub row : Row
    pub appended :
        e.postgres.rows inserted "function_versions"
        ≡ e.postgres.rows w.db "function_versions" ++ row ∷ []
    pub row_id : cell row "id" ≡ uuid (e.uuids.created w.drawn)
    pub row_function : cell row "function_id" ≡ uuid fn_id
    pub row_number : cell row "version_number" ≡ int number
    pub row_status : cell row "status" ≡ text "QUEUED"
    pub larger :
        All
          (λ r. IsLess (cell r "version_number") number)
          (select (has "function_id" (uuid fn_id)) (e.postgres.rows w.db "function_versions"))
    pub updated :
        after.db
        ≡ (Versions.update_status e.postgres (e.uuids.created w.drawn) "BUILDING" inserted).1

  -- The database once the latest number has been read.
  abbrev counted : Uuid → World e → e.postgres.State
  counted fn_id w =
      (Versions.latest_version_number e.postgres fn_id
        (Functions.get_by_id e.postgres fn_id w.db).1).1

  abbrev version_after : Uuid → ℤ → World e → FunctionVersion
  version_after fn_id last w = queued_version (e.uuids.created w.drawn) fn_id last

  abbrev version_row : Uuid → ℤ → World e → Row
  version_row fn_id last w =
      pair_up Versions.insert_columns (Versions.values_of (version_after fn_id last w))
      ++ e.postgres.defaults (counted fn_id w) "function_versions"

  counted_rows :
      (fn_id : Uuid) (w : World e)
      → e.postgres.rows (counted fn_id w) "function_versions"
        ≡ e.postgres.rows w.db "function_versions"
  counted_rows fn_id w =
      latest_rows e.postgres laws.postgres_laws fn_id "function_versions" _
      ∙ function_rows e.postgres laws.postgres_laws fn_id "function_versions" w.db

  created_rows :
      (fn_id : Uuid) (last : ℤ) (w : World e)
      → (Versions.create e.postgres (version_after fn_id last w) (counted fn_id w)).0 ≡ ok tt
      → e.postgres.rows
          (Versions.create e.postgres (version_after fn_id last w) (counted fn_id w)).1
          "function_versions"
        ≡ e.postgres.rows w.db "function_versions" ++ version_row fn_id last w ∷ []
  unfolding Versions.create
  created_rows fn_id last w done =
      laws.postgres_laws.insert_ok (counted fn_id w) "function_versions" Versions.insert_columns
        (Versions.values_of (version_after fn_id last w)) done
      ∙ ap (λ rows. rows ++ version_row fn_id last w ∷ []) (counted_rows fn_id w)

  -- The latest number is not below that of any version of the function.
  numbers_below :
      (fn_id : Uuid) (last : ℤ) (w : World e)
      → (Versions.latest_version_number e.postgres fn_id
          (Functions.get_by_id e.postgres fn_id w.db).1).0
        ≡ ok last
      → All
          (λ r. IsLess (cell r "version_number") (last +ℤ pos 1))
          (select (has "function_id" (uuid fn_id)) (e.postgres.rows w.db "function_versions"))
  numbers_below fn_id last w l =
      let found = Functions.get_by_id e.postgres fn_id w.db in
      let same = function_rows e.postgres laws.postgres_laws fn_id "function_versions" w.db in
      In-All _ _ λ r m.
        let (stored, owned) = In-select (has "function_id" (uuid fn_id)) r _ m in
        bounded-IsLess (cell r "version_number") last λ n numbered.
          latest_version_number-bound e.postgres laws.postgres_laws fn_id found.1 last n r l
            (subst (In r) (sym same) stored) owned numbered

  -- If `Deploy` replies 202, then it has inserted a version of the function under a fresh id with the
  -- status "QUEUED", whose number is larger than the number of each version of the function that was
  -- there, and then it has asked for the status "BUILDING".
  pub deploy_lem :
      (c : Context) (w : World e) (response : Response) (fn_id : Uuid)
      → (deploy e c w).0 ≡ ok response
      → response.status ≡ 202
      → e.uuids.parse (c.param "id") ≡ ok fn_id
      → Deployed fn_id w (deploy e c w).1
  unfolding deploy deploy_found build queued_version lookup
  deploy_lem c w response fn_id done accepted p =
      elim (Result-cases (Functions.get_by_id e.postgres fn_id w.db).0) [
        | inr (cause, f) ↦ absurd (ground (arith, p, f, done, accepted))
        | inl (fn, f) ↦
            let db = (Functions.get_by_id e.postgres fn_id w.db).1 in
            elim (Result-cases (Versions.latest_version_number e.postgres fn_id db).0) [
              | inr (cause, l) ↦ absurd (ground (arith, p, f, l, done, accepted))
              | inl (last, l) ↦
                  elim (Result-cases
                    (Versions.create e.postgres (version_after fn_id last w) (counted fn_id w)).0) [
                      | inr (cause, v) ↦ absurd (ground (arith, p, f, l, v, done, accepted))
                      | inl (_, v) ↦ record {
                        number = last +ℤ pos 1;
                        inserted =
                            (Versions.create e.postgres (version_after fn_id last w)
                              (counted fn_id w)).1;
                        row = version_row fn_id last w;
                        appended = created_rows fn_id last w v;
                        row_id = ground arith;
                        row_function = ground arith;
                        row_number = ground arith;
                        row_status = ground arith;
                        larger = numbers_below fn_id last w l;
                        updated = rw (p, f, l, v) refl;
                      }
                    ]
            ]
      ]
