-- ===== src/Idempotency/Extension.antt =====
-- internal/idempotency/idempotency.go: the service changes no stream but under the names
-- of its own keys, and creates no consumer group.
use nimbus_run_a_self_hosted.Prelude.{
  ℕ, String, inl, inr, none, some, Bool-cases, Option-cases, str_eq,
}
use nimbus_run_a_self_hosted.Prelude.Exec.{Result-cases}
use nimbus_run_a_self_hosted.Platform.Data.{Codec}
use nimbus_run_a_self_hosted.Platform.Redis.{Redis, IsRedis}
use nimbus_run_a_self_hosted.Queue.Extension.{
  Extends, Extends-refl, get-Extends, set-Extends, set_nx-Extends, call_del-Extends, eval-Extends,
}
use nimbus_run_a_self_hosted.Idempotency.{
  ResultCache, result_ttl, idem_key, lock_key, check, store, acquire_lock, release_script,
  release_lock,
}

module _ (r : Redis) (laws : IsRedis r) where
  pub check-Extends :
      (c : Codec ResultCache) (key : String) (s : r.State) → Extends r s (check r c key s).1
  unfolding check
  check-Extends c key s = elim (Bool-cases (str_eq key "")) [
    | inl blank ↦ rw (blank) (Extends-refl r s)
    | inr there ↦
        let got = get-Extends r laws s (idem_key key) in
        elim (Result-cases (r.get (idem_key key) s).0) [
          | inr (cause, e) ↦ rw (there) (rw (e) got)
          | inl (none, e) ↦ rw (there) (rw (e) got)
          | inl (some text, e) ↦ elim (Result-cases (c.unmarshal text)) [
            | inr (cause, d) ↦ rw (there) (rw (e) (rw (d) got))
            | inl (cache, d) ↦ rw (there) (rw (e) (rw (d) got))
          ]
        ]
  ]

  pub store-Extends :
      (c : Codec ResultCache) (key id status result message : String) (s : r.State)
      → Extends r s (store r c key id status result message s).1
  unfolding store
  store-Extends c key id status result message s = elim (Bool-cases (str_eq key "")) [
    | inl blank ↦ rw (blank) (Extends-refl r s)
    | inr there ↦
        let cache : ResultCache = record {
          invocation_id = id;
          status = status;
          result = result;
          error = message;
        } in
        elim (Result-cases (c.marshal cache)) [
          | inr (cause, m) ↦ rw (there) (rw (m) (Extends-refl r s))
          | inl (text, m) ↦ rw (there) (
              rw (m)
                (set-Extends r laws s (idem_key key) text result_ttl λ stream apart. (apart key).0))
        ]
  ]

  pub acquire_lock-Extends :
      (key token : String) (ttl : ℕ) (s : r.State) → Extends r s (acquire_lock r key token ttl s).1
  unfolding acquire_lock
  acquire_lock-Extends key token ttl s = elim (Bool-cases (str_eq key "")) [
    | inl blank ↦ rw (blank) (Extends-refl r s)
    | inr there ↦
        let set = set_nx-Extends r laws s (lock_key key) token ttl in
        elim (Result-cases (r.set_nx (lock_key key) token ttl s).0) [
          | inr (cause, e) ↦ rw (there) (rw (e) set)
          | inl (got, e) ↦ rw (there) (rw (e) set)
        ]
  ]

  release_script-Extends :
      (k token : String) (s : r.State) → Extends r s (release_script r (lock_key k) token s).1
  unfolding release_script
  release_script-Extends k token s = elim (Option-cases (r.call_get (lock_key k) s)) [
    | inl e ↦ rw (e, release_script) (Extends-refl r s)
    | inr (held, e) ↦ elim (Bool-cases (str_eq held token)) [
      | inl same ↦
          rw (e, release_script)
            (rw (same) (call_del-Extends r laws s (lock_key k) λ stream apart. (apart k).1))
      | inr other ↦ rw (e, release_script) (rw (other) (Extends-refl r s))
    ]
  ]

  pub release_lock-Extends :
      (key token : String) (s : r.State) → Extends r s (release_lock r key token s).1
  unfolding release_lock
  release_lock-Extends key token s = elim (Bool-cases (str_eq key "")) [
    | inl blank ↦ rw (blank) (Extends-refl r s)
    | inr there ↦
        let script = release_script r (lock_key key) token in
        let run = eval-Extends r laws s script (release_script-Extends key token s) in
        elim (Result-cases (r.eval script s).0) [
          | inr (cause, e) ↦ rw (there) (rw (e) run)
          | inl (n, e) ↦ rw (there) (rw (e) run)
        ]
  ]
