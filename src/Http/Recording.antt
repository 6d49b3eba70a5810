-- ===== src/Http/Recording.antt =====
-- internal/http/handler/invocation_handler.go: what `Invoke` records of a request it accepts.
use nimbus_run_a_self_hosted.Prelude.{
  String, ◌≡◌, ◌≢◌, refl, ap, ◌∙◌, ◌⊎◌, inl, inr, List, [], ◌∷◌, ◌++◌, arith, lookup, ◌==◌, str_eq,
  Bool-cases, eq_iff,
}
use nimbus_run_a_self_hosted.Prelude.Exec.{Error, Result, ok, err, Result-cases}
use nimbus_run_a_self_hosted.Platform.Data.{Uuid, nil_uuid}
use nimbus_run_a_self_hosted.Platform.Postgres.{Row, text, uuid, cell, pair_up}
use nimbus_run_a_self_hosted.Platform.Gin.{Response, Context, object, string, identifier}
use nimbus_run_a_self_hosted.Models.{Function, Invocation}
use nimbus_run_a_self_hosted.Repository.Functions
use nimbus_run_a_self_hosted.Repository.Versions
use nimbus_run_a_self_hosted.Repository.Invocations
use nimbus_run_a_self_hosted.Repository.Reads.{function_rows, version_rows, key_rows}
use nimbus_run_a_self_hosted.Env.{Env, IsEnv, World}
use nimbus_run_a_self_hosted.Http.Invocations.{
  pending_invocation, record_invocation, answer_existing, invoke_version, invoke_function, invoke,
}

module _ (e : Env) (laws : IsEnv e) where
  abbrev stored : World e → List Row
  stored w = e.postgres.rows w.db "invocations"

  -- A query under the key that is made while the table has the rows of the world.
  pub record Asked (key : String) (w : World e) : Type 0 where
    pub keyed : key ≢ ""
    pub state : e.postgres.State
    pub same_rows : e.postgres.rows state "invocations" ≡ stored w

  abbrev answered : (key : String) (w : World e) → Asked key w → Result Invocation
  answered key w a = (Invocations.get_by_idempotency_key e.postgres key a.state).0

  -- The request has no key, or the query under its key fails or finds no row.
  pub data IsNew (key : String) (w : World e) : Type 0 where
    without_key : key ≡ "" → IsNew key w
    not_known : (a : Asked key w) (cause : Error) → answered key w a ≡ err cause → IsNew key w

  -- One more row: a pending invocation of the function under a fresh id, with the key. It is only
  -- added for a request that is new.
  pub record Recorded (fn_id : Uuid) (key : String) (w after : World e) : Type 0 where
    pub row : Row
    pub appended : stored after ≡ stored w ++ row ∷ []
    pub row_id : cell row "id" ≡ uuid (e.uuids.created w.drawn)
    pub row_function : cell row "function_id" ≡ uuid fn_id
    pub row_status : cell row "status" ≡ text "PENDING"
    pub row_key : cell row "idempotency_key" ≡ text key
    pub new_request : IsNew key w

  -- The request has a key, the reply names the invocation that a query under it finds, and no row is
  -- new.
  pub record Repeated (key : String) (response : Response) (w after : World e) : Type 0 where
    pub existing : Invocation
    pub answer : response ≡ record {
      status = 202;
      body = object (
          ("id", identifier existing.id)
          ∷ ("status", string existing.status)
          ∷ ("message", string "Duplicate request deduplicated")
          ∷ []);
    }
    pub asked : Asked key w
    pub found : answered key w asked ≡ ok existing
    pub unchanged : stored after ≡ stored w

  abbrev Outcome : Uuid → String → Response → World e → World e → Type 0
  Outcome fn_id key response w after = Recorded fn_id key w after ⊎ Repeated key response w after

  record_lem :
      (fn_id version_id : Uuid) (key : String) (response : Response) (w v : World e)
      → stored v ≡ stored w
      → v.drawn ≡ w.drawn
      → IsNew key w
      → (record_invocation e fn_id version_id key v).0 ≡ ok response
      → response.status ≡ 202
      → Recorded fn_id key w (record_invocation e fn_id version_id key v).1
  unfolding record_invocation pending_invocation Invocations.create lookup
  record_lem fn_id version_id key response w v rows drawn novel done accepted =
      let inv = pending_invocation (e.uuids.created v.drawn) fn_id version_id key in
      let fresh =
        pair_up Invocations.insert_columns (Invocations.values_of inv)
        ++ e.postgres.defaults v.db "invocations" in
      elim (Result-cases (Invocations.create e.postgres inv v.db).0) [
        | inr (cause, f) ↦ absurd (ground (arith, f, done, accepted))
        | inl (_, f) ↦ record {
          row = fresh;
          appended = rw f (
              laws.postgres_laws.insert_ok v.db "invocations" Invocations.insert_columns
                (Invocations.values_of inv) f
              ∙ ap (λ rs. rs ++ fresh ∷ []) rows);
          row_id = ap (λ n. uuid (e.uuids.created n)) drawn;
          row_function = ground arith;
          row_status = ground arith;
          row_key = ground arith;
          new_request = novel;
        }
      ]

  version_lem :
      (fn_id version_id : Uuid) (key : String) (response : Response) (w v : World e)
      → stored v ≡ stored w
      → v.drawn ≡ w.drawn
      → (invoke_version e fn_id version_id key v).0 ≡ ok response
      → response.status ≡ 202
      → Outcome fn_id key response w (invoke_version e fn_id version_id key v).1
  unfolding invoke_version answer_existing
  version_lem fn_id version_id key response w v rows drawn done accepted =
      elim (Bool-cases (str_eq key "")) [
        | inl keyless ↦ rw keyless (
            inl (
              record_lem fn_id version_id key response w v rows drawn
                (IsNew.without_key ((eq_iff key "").0 keyless)) (rw keyless at done) accepted))
        | inr keyed ↦
            let asked : Asked key w = record {
              keyed = λ q. ground (arith, keyed, (eq_iff key "").1 q);
              state = v.db;
              same_rows = rows;
            } in
            let looked = Invocations.get_by_idempotency_key e.postgres key v.db in
            let v' : World e = record v { db = looked.1 } in
            let kept = key_rows e.postgres laws.postgres_laws key "invocations" v.db ∙ rows in
            elim (Result-cases looked.0) [
              | inr (cause, k) ↦
                  rw (keyed, k)
                    (inl (
                      record_lem fn_id version_id key response w v' kept drawn
                        (IsNew.not_known asked cause k) (rw (keyed, k) at done) accepted))
              | inl (existing, k) ↦
                  rw (keyed, k)
                    (inr (record {
                      existing = existing;
                      answer = ground (arith, rw (keyed, k) at done);
                      asked = asked;
                      found = k;
                      unchanged = kept;
                    }))
            ]
      ]

  function_lem :
      (fn_id : Uuid) (key : String) (fn : Function) (response : Response) (w v : World e)
      → stored v ≡ stored w
      → v.drawn ≡ w.drawn
      → (invoke_function e fn_id key fn v).0 ≡ ok response
      → response.status ≡ 202
      → Outcome fn_id key response w (invoke_function e fn_id key fn v).1
  unfolding invoke_function
  function_lem fn_id key fn response w v rows drawn done accepted =
      elim (Bool-cases (fn.active_version_id == nil_uuid)) [
        | inl unset ↦ absurd (ground (arith, unset, done, accepted))
        | inr active ↦
            let read = Versions.get_by_id e.postgres fn.active_version_id v.db in
            let v' : World e = record v { db = read.1 } in
            let kept =
              version_rows e.postgres laws.postgres_laws fn.active_version_id "invocations" v.db
              ∙ rows in
            elim (Result-cases read.0) [
              | inr (cause, r) ↦ absurd (ground (arith, active, r, done, accepted))
              | inl (ver, r) ↦
                  rw (active, r)
                    (version_lem fn_id ver.id key response w v' kept drawn (rw (active, r) at done)
                      accepted)
            ]
      ]

  -- If the gateway's `Invoke` replies 202 for a function, then there are two cases. If the request has
  -- no key, or the query under its key fails or finds nothing, it has added one invocation of that
  -- function, under a fresh id, with the status "PENDING" and the key of the request. If the request
  -- has a key and the query finds an invocation, it has added none, and its reply names that one.
  pub invoke_lem :
      (c : Context) (w : World e) (response : Response) (fn_id : Uuid)
      → (invoke e c w).0 ≡ ok response
      → response.status ≡ 202
      → e.uuids.parse (c.param "id") ≡ ok fn_id
      → Recorded fn_id (c.request.header "Idempotency-Key") w (invoke e c w).1
        ⊎ Repeated (c.request.header "Idempotency-Key") response w (invoke e c w).1
  unfolding invoke
  invoke_lem c w response fn_id done accepted p =
      let key = c.request.header "Idempotency-Key" in
      let read = Functions.get_by_id e.postgres fn_id w.db in
      let v : World e = record w { db = read.1 } in
      elim (Result-cases read.0) [
        | inr (cause, f) ↦ absurd (ground (arith, p, f, done, accepted))
        | inl (fn, f) ↦
            rw (p, f)
              (function_lem fn_id key fn response w v
                (function_rows e.postgres laws.postgres_laws fn_id "invocations" w.db) refl
                (rw (p, f) at done) accepted)
      ]
