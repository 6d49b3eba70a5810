-- ===== src/Invocation/Resolving.antt =====
-- internal/invocation/service.go: what `Invoke` finds of the function and its version.
use nimbus_run_a_self_hosted.Prelude.{◌≡◌, ◌≢◌, inl, inr, arith, eq_iff}
use nimbus_run_a_self_hosted.Prelude.Exec.{ok, Result-cases}
use nimbus_run_a_self_hosted.Platform.Data.{Uuid, nil_uuid}
use nimbus_run_a_self_hosted.Models.{Function, FunctionVersion}
use nimbus_run_a_self_hosted.Repository.Functions
use nimbus_run_a_self_hosted.Repository.Versions
use nimbus_run_a_self_hosted.Repository.Reads.{function_rows, version_rows}
use nimbus_run_a_self_hosted.Env.{Env, IsEnv, World}
use nimbus_run_a_self_hosted.Invocation.{resolve}

module _ (e : Env) (laws : IsEnv e) where
  -- What a successful `resolve` has found.
  pub record Resolved (id : Uuid) (w : World e) (fn : Function) (ver : FunctionVersion)
      : Type 0 where
    pub found : (Functions.get_by_id e.postgres id w.db).0 ≡ ok fn
    pub active : fn.active_version_id ≢ nil_uuid
    pub version :
        (Versions.get_by_id e.postgres fn.active_version_id
          (Functions.get_by_id e.postgres id w.db).1).0
        ≡ ok ver
    pub ready : ver.status ≡ "READY"

  pub resolve_lem :
      (id : Uuid) (w : World e) (fn : Function) (ver : FunctionVersion)
      → (resolve e id w).0 ≡ ok (fn, ver)
      → Resolved id w fn ver
  unfolding resolve
  resolve_lem id w fn ver done = elim (Result-cases (Functions.get_by_id e.postgres id w.db).0) [
    | inr (cause, f) ↦ absurd (ground (arith, f))
    | inl (fn', f) ↦
        elim (Result-cases
          (Versions.get_by_id e.postgres fn'.active_version_id
            (Functions.get_by_id e.postgres id w.db).1).0) [
              | inr (cause, v) ↦ absurd (ground (arith, f, v))
              | inl (ver', v) ↦ record {
                found = ground (arith, f, v, eq_iff ver'.status "READY");
                active = ground (arith, f, v);
                version = ground (arith, f, v, eq_iff ver'.status "READY");
                ready = ground (arith, f, v, eq_iff ver'.status "READY");
              }
            ]
  ]

  pub resolve_rest :
      (id : Uuid) (w : World e)
      → ((resolve e id w).1.redis ≡ w.redis)
        × ((resolve e id w).1.drawn ≡ w.drawn)
        × ((resolve e id w).1.timers ≡ w.timers)
        × (e.postgres.rows (resolve e id w).1.db "invocations" ≡ e.postgres.rows w.db "invocations")
  unfolding resolve
  resolve_rest id w = elim (Result-cases (Functions.get_by_id e.postgres id w.db).0) [
    | inr (cause, f) ↦
        ground (arith, f, function_rows e.postgres laws.postgres_laws id "invocations" w.db)
    | inl (fn, f) ↦
        let db = (Functions.get_by_id e.postgres id w.db).1 in
        elim (Result-cases (Versions.get_by_id e.postgres fn.active_version_id db).0) [
          | inr (cause, v) ↦ ground (
            arith,
            f,
            v,
            function_rows e.postgres laws.postgres_laws id "invocations" w.db,
            version_rows e.postgres laws.postgres_laws fn.active_version_id "invocations" db,
          )
          | inl (ver, v) ↦ ground (
            arith,
            f,
            v,
            function_rows e.postgres laws.postgres_laws id "invocations" w.db,
            version_rows e.postgres laws.postgres_laws fn.active_version_id "invocations" db,
          )
        ]
  ]
