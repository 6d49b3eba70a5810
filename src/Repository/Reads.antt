-- ===== src/Repository/Reads.antt =====
-- internal/repository: reading leaves the tables as they are.
use nimbus_run_a_self_hosted.Prelude.{String, ◌≡◌, true, some, none, subst, inl, inr, arith}
use nimbus_run_a_self_hosted.Prelude.Members.{In}
use nimbus_run_a_self_hosted.Prelude.Int.{ℤ, ◌≤ℤ◌}
use nimbus_run_a_self_hosted.Prelude.Exec.{ok, Result-cases}
use nimbus_run_a_self_hosted.Platform.Data.{Uuid}
use nimbus_run_a_self_hosted.Platform.Postgres.{
  text, Postgres, IsPostgres, Row, Query, uuid, int, cell, has, by_key,
}
use nimbus_run_a_self_hosted.Repository.Rows.{scan_first}
use nimbus_run_a_self_hosted.Repository.Functions
use nimbus_run_a_self_hosted.Repository.Versions
use nimbus_run_a_self_hosted.Repository.Invocations

module _ (p : Postgres) (laws : IsPostgres p) where
  pub function_rows :
      (id : Uuid) (table : String) (s : p.State)
      → p.rows (Functions.get_by_id p id s).1 table ≡ p.rows s table
  unfolding Functions.get_by_id
  function_rows id table s =
      let q = by_key Functions.select_columns "functions" "id" (uuid id) in
      elim (Result-cases (p.query q s).0) [
        | inl (found, e) ↦ ground (arith, e, laws.query_rows s q table)
        | inr (cause, e) ↦ ground (arith, e, laws.query_rows s q table)
      ]

  pub version_rows :
      (id : Uuid) (table : String) (s : p.State)
      → p.rows (Versions.get_by_id p id s).1 table ≡ p.rows s table
  unfolding Versions.get_by_id
  version_rows id table s =
      let q = by_key Versions.select_columns "function_versions" "id" (uuid id) in
      elim (Result-cases (p.query q s).0) [
        | inl (found, e) ↦ ground (arith, e, laws.query_rows s q table)
        | inr (cause, e) ↦ ground (arith, e, laws.query_rows s q table)
      ]

  pub key_rows :
      (key table : String) (s : p.State)
      → p.rows (Invocations.get_by_idempotency_key p key s).1 table ≡ p.rows s table
  unfolding Invocations.get_by_idempotency_key
  key_rows key table s =
      let q = by_key Invocations.select_columns "invocations" "idempotency_key" (text key) in
      elim (Result-cases (p.query q s).0) [
        | inl (found, e) ↦ ground (arith, e, laws.query_rows s q table)
        | inr (cause, e) ↦ ground (arith, e, laws.query_rows s q table)
      ]

  pub versions_rows :
      (id : Uuid) (table : String) (s : p.State)
      → p.rows (Versions.list_by_function_id p id s).1 table ≡ p.rows s table
  unfolding Versions.list_by_function_id
  versions_rows id table s =
      let q : Query = record {
        columns = Versions.select_columns;
        table = "function_versions";
        filter = some ("function_id", uuid id);
        order_desc = some "version_number";
        limit = none;
      } in
      elim (Result-cases (p.query q s).0) [
        | inl (found, e) ↦ ground (arith, e, laws.query_rows s q table)
        | inr (cause, e) ↦ ground (arith, e, laws.query_rows s q table)
      ]

  pub latest_rows :
      (id : Uuid) (table : String) (s : p.State)
      → p.rows (Versions.latest_version_number p id s).1 table ≡ p.rows s table
  unfolding Versions.latest_version_number
  latest_rows id table s =
      let kept =
        laws.query_max_rows s "version_number" "function_versions" "function_id" (uuid id) table in
      elim (Result-cases
        (p.query_max "version_number" "function_versions" "function_id" (uuid id) s).0) [
          | inl (found, e) ↦ ground (arith, e, kept)
          | inr (cause, e) ↦ ground (arith, e, kept)
        ]

  -- The latest number is at least that of each of the function's versions.
  pub latest_version_number-bound :
      (id : Uuid) (s : p.State) (last n : ℤ) (r : Row)
      → (Versions.latest_version_number p id s).0 ≡ ok last
      → In r (p.rows s "function_versions")
      → has "function_id" (uuid id) r ≡ true
      → cell r "version_number" ≡ int n
      → n ≤ℤ last
  unfolding Versions.latest_version_number Versions.scan_number scan_first
  latest_version_number-bound id s last n r done stored owned numbered =
      elim (Result-cases
        (p.query_max "version_number" "function_versions" "function_id" (uuid id) s).0) [
          | inr (cause, e) ↦ absurd (ground (arith, e, done))
          | inl (found, e) ↦
              let (m, one, most) =
                laws.query_max_ok s "version_number" "function_versions" "function_id" (uuid id)
                  found e in
              subst (λ k. n ≤ℤ k) (ground (arith, e, one, laws.scan_int_ok m, done))
                (most r n stored owned numbered)
        ]
