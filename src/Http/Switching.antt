-- ===== src/Http/Switching.antt =====
-- internal/http/handler/function_handler.go: what `Rollback` makes of each request.
use nimbus_run_a_self_hosted.Prelude.{
  String, ◌≡◌, refl, ap, ◌∙◌, ◌≢◌, ◌⊎◌, inl, inr, some, List, [], ◌∷◌, arith, eq_iff, str_eq,
  Option-cases, Bool-cases,
}
use nimbus_run_a_self_hosted.Prelude.Members.{In}
use nimbus_run_a_self_hosted.Prelude.Int.{ℤ, eqb_ℤ, eqb_ℤ_eq}
use nimbus_run_a_self_hosted.Prelude.Text.{atoi}
use nimbus_run_a_self_hosted.Prelude.Exec.{Result, ok, Result-cases}
use nimbus_run_a_self_hosted.Platform.Data.{Uuid}
use nimbus_run_a_self_hosted.Platform.Postgres.{Value, uuid, updated}
use nimbus_run_a_self_hosted.Platform.Gin.{
  Response, Context, error_reply, object, identifier, integer,
}
use nimbus_run_a_self_hosted.Models.{FunctionVersion}
use nimbus_run_a_self_hosted.Repository.Functions
use nimbus_run_a_self_hosted.Repository.Versions
use nimbus_run_a_self_hosted.Repository.Reads.{versions_rows}
use nimbus_run_a_self_hosted.Env.{Env, IsEnv, World}
use nimbus_run_a_self_hosted.Http.Functions.{find_version, switch_to, rollback}

find_version_lem :
    (n : ℤ) (vs : List FunctionVersion) (v : FunctionVersion)
    → find_version n vs ≡ some v
    → In v vs × (v.version_num ≡ n)
unfolding find_version
find_version_lem n [] v e = ground (arith, e)
find_version_lem n (x ∷ xs) v e = elim (Bool-cases (eqb_ℤ x.version_num n)) [
  | inl here ↦ ground (arith, e, here, eqb_ℤ_eq x.version_num n)
  | inr other ↦ ground (arith, e, other, find_version_lem n xs v)
]

module _ (e : Env) (laws : IsEnv e) where
  -- The active version of a function has become a ready version of it that has the number.
  pub record Switched (now : Value) (c : Context) (w after : World e) : Type 0 where
    pub fn_id : Uuid
    pub n : ℤ
    pub versions : List FunctionVersion
    pub target : FunctionVersion
    pub parsed : e.uuids.parse (c.param "id") ≡ ok fn_id
    pub numbered : atoi (c.param "version") ≡ ok n
    pub listed : (Versions.list_by_function_id e.postgres fn_id w.db).0 ≡ ok versions
    pub member : In target versions
    pub has_number : target.version_num ≡ n
    pub ready : target.status ≡ "READY"
    pub rows :
        e.postgres.rows after.db "functions"
        ≡ updated
            (("active_version_id", uuid target.id) ∷ ("updated_at", now) ∷ [])
            "id"
            (uuid fn_id)
            (e.postgres.rows w.db "functions")

  -- Nothing has changed in a table, or the server has refused the update.
  abbrev pub Kept : World e → World e → Response → String → Type 0
  Kept w after response table =
      (response.status ≢ 200)
      × ((e.postgres.rows after.db table ≡ e.postgres.rows w.db table)
          ⊎ (response ≡ error_reply 500 "failed to rollback"))

  -- The update of `Rollback`, after the listing.
  abbrev switching : Value → Uuid → FunctionVersion → World e → Result (Unit {0}) × e.postgres.State
  switching now fn_id target w =
      Functions.update_active_version e.postgres now fn_id target.id
        (Versions.list_by_function_id e.postgres fn_id w.db).1

  abbrev switched_reply : Uuid → FunctionVersion → Response
  switched_reply fn_id target = record {
    status = 200;
    body = object (
        ("function_id", identifier fn_id)
        ∷ ("active_version", identifier target.id)
        ∷ ("version_number", integer target.version_num)
        ∷ []);
  }

  switched_rows :
      (now : Value) (fn_id : Uuid) (target : FunctionVersion) (w : World e)
      → (switching now fn_id target w).0 ≡ ok tt
      → e.postgres.rows (switching now fn_id target w).1 "functions"
        ≡ updated
            (("active_version_id", uuid target.id) ∷ ("updated_at", now) ∷ [])
            "id"
            (uuid fn_id)
            (e.postgres.rows w.db "functions")
  unfolding Functions.update_active_version
  switched_rows now fn_id target w done =
      let sets = ("active_version_id", uuid target.id) ∷ ("updated_at", now) ∷ [] in
      laws.postgres_laws.update_ok (Versions.list_by_function_id e.postgres fn_id w.db).1
        "functions" sets "id" (uuid fn_id) done
      ∙ ap (updated sets "id" (uuid fn_id))
          (versions_rows e.postgres laws.postgres_laws fn_id "functions" w.db)

  abbrev Outcome : Value → Context → World e → String → Type 0
  Outcome now c w table =
      (response : Response) × ((rollback e now c w).0 ≡ ok response)
      × (((response.status ≡ 200) × Switched now c w (rollback e now c w).1)
          ⊎ Kept w (rollback e now c w).1 response table)

  -- From the search for the version on.
  found_lem :
      (now : Value) (c : Context) (w : World e) (table : String) (fn_id : Uuid) (n : ℤ)
      (versions : List FunctionVersion)
      → e.uuids.parse (c.param "id") ≡ ok fn_id
      → atoi (c.param "version") ≡ ok n
      → (Versions.list_by_function_id e.postgres fn_id w.db).0 ≡ ok versions
      → Outcome now c w table
  unfolding rollback switch_to
  found_lem now c w table fn_id n versions p a l =
      let kept = versions_rows e.postgres laws.postgres_laws fn_id in
      elim (Option-cases (find_version n versions)) [
        | inl missing ↦ (
          error_reply 404 "version not found",
          rw (p, a, l, missing) refl,
          inr ((λ h. ground (arith, h)), inl (rw (p, a, l, missing) (kept table w.db))),
        )
        | inr (target, found) ↦ elim (Bool-cases (str_eq target.status "READY")) [
          | inr other ↦ (
            error_reply 400 "can only rollback to READY versions",
            rw (p, a, l, found, other) refl,
            inr ((λ h. ground (arith, h)), inl (rw (p, a, l, found, other) (kept table w.db))),
          )
          | inl ready ↦ elim (Result-cases (switching now fn_id target w).0) [
            | inr (cause, u) ↦ (
              error_reply 500 "failed to rollback",
              rw (p, a, l, found, ready, u) refl,
              inr ((λ h. ground (arith, h)), inr refl),
            )
            | inl (_, u) ↦ (
              switched_reply fn_id target,
              rw (p, a, l, found, ready, u) refl,
              inl (
                refl,
                record {
                  fn_id = fn_id;
                  n = n;
                  versions = versions;
                  target = target;
                  parsed = p;
                  numbered = a;
                  listed = l;
                  member = (find_version_lem n versions target found).0;
                  has_number = (find_version_lem n versions target found).1;
                  ready = (eq_iff target.status "READY").0 ready;
                  rows = rw (p, a, l, found, ready, u) (switched_rows now fn_id target w u);
                },
              ),
            )
          ]
        ]
      ]

  -- `Rollback` always replies. Either it replies 200, and the function's active version has become a
  -- listed version of it that has the requested number and the status "READY"; or it replies
  -- otherwise, and the rows of every table are as before unless the update itself has failed.
  pub rollback_lem :
      (now : Value) (c : Context) (w : World e) (table : String)
      → (response : Response) × ((rollback e now c w).0 ≡ ok response)
        × (((response.status ≡ 200) × Switched now c w (rollback e now c w).1)
            ⊎ Kept w (rollback e now c w).1 response table)
  unfolding rollback switch_to
  rollback_lem now c w table = elim (Result-cases (e.uuids.parse (c.param "id"))) [
    | inr (cause, p) ↦ (
      error_reply 400 "invalid function ID",
      rw p refl,
      inr ((λ h. ground (arith, h)), inl (rw p refl)),
    )
    | inl (fn_id, p) ↦ elim (Result-cases (atoi (c.param "version"))) [
      | inr (cause, a) ↦ (
        error_reply 400 "invalid version number",
        rw (p, a) refl,
        inr ((λ h. ground (arith, h)), inl (rw (p, a) refl)),
      )
      | inl (n, a) ↦
          let kept = versions_rows e.postgres laws.postgres_laws fn_id in
          elim (Result-cases (Versions.list_by_function_id e.postgres fn_id w.db).0) [
            | inr (cause, l) ↦ (
              error_reply 500 "failed to list versions",
              rw (p, a, l) refl,
              inr ((λ h. ground (arith, h)), inl (rw (p, a, l) (kept table w.db))),
            )
            | inl (versions, l) ↦ found_lem now c w table fn_id n versions p a l
          ]
    ]
  ]
