-- ===== src/Idempotency/Results.antt =====
-- internal/idempotency/idempotency.go: what `Check` finds after `Store`.
use nimbus_run_a_self_hosted.Prelude.{
  String, ◌≡◌, ◌≢◌, refl, sym, ◌∙◌, inl, inr, Option, some, Option-cases, arith, eq_iff,
}
use nimbus_run_a_self_hosted.Prelude.Exec.{ok, Result-cases}
use nimbus_run_a_self_hosted.Platform.Data.{Codec, IsCodec}
use nimbus_run_a_self_hosted.Platform.Redis.{Redis, IsRedis}
use nimbus_run_a_self_hosted.Idempotency.{ResultCache, idem_key, result_ttl, check, store}
use nimbus_run_a_self_hosted.Idempotency.Keys.{idem_key_inj}

module _ (r : Redis) (c : Codec ResultCache) (laws : IsRedis r) (codec : IsCodec c) where
  -- A successful store leaves the encoded result under the key.
  store_lem :
      (s : r.State) (key : String) (cache : ResultCache)
      → key ≢ ""
      → (store r c key cache.invocation_id cache.status cache.result cache.error s).0 ≡ ok tt
      → (text : String) × (c.marshal cache ≡ ok text)
        × (r.call_get
              (idem_key key)
              (store r c key cache.invocation_id cache.status cache.result cache.error s).1
            ≡ some text)
  unfolding store
  store_lem s key cache h stored = elim (Result-cases (c.marshal cache)) [
    | inl (text, e) ↦ (
      text,
      e,
      ground (
        arith,
        e,
        eq_iff key "",
        eq_iff (idem_key key) (idem_key key),
        laws.set_ok s (idem_key key) text result_ttl (idem_key key),
      ),
    )
    | inr (cause, e) ↦ absurd (ground (arith, e, eq_iff key ""))
  ]

  check_lem :
      (s : r.State) (key text : String) (cache : ResultCache) (found : Option ResultCache)
      → key ≢ ""
      → r.call_get (idem_key key) s ≡ some text
      → c.unmarshal text ≡ ok cache
      → (check r c key s).0 ≡ ok found
      → found ≡ some cache
  unfolding check
  check_lem s key text cache found h held decoded checked =
      elim (Result-cases (r.get (idem_key key) s).0) [
        | inl (v, e) ↦ ground (arith, eq_iff key "", e, (laws.get_ok s (idem_key key) v e).0)
        | inr (cause, e) ↦ ground (arith, eq_iff key "", e)
      ]

  store_other :
      (s : r.State) (key other : String) (cache : ResultCache)
      → key ≢ other
      → key ≢ ""
      → (store r c key cache.invocation_id cache.status cache.result cache.error s).0 ≡ ok tt
      → r.call_get
          (idem_key other)
          (store r c key cache.invocation_id cache.status cache.result cache.error s).1
        ≡ r.call_get (idem_key other) s
  unfolding store
  store_other s key other cache apart h stored = elim (Result-cases (c.marshal cache)) [
    | inl (text, e) ↦
        let distinct : idem_key key ≢ idem_key other = λ q. apart (idem_key_inj key other q) in
        ground (
          arith,
          e,
          eq_iff key "",
          eq_iff (idem_key key) (idem_key other),
          laws.set_ok s (idem_key key) text result_ttl (idem_key other),
        )
    | inr (cause, e) ↦ ground (arith, e, eq_iff key "")
  ]

  -- Two checks that succeed where the server holds the same text agree.
  check_same :
      (s t : r.State) (key : String) (before after : Option ResultCache)
      → r.call_get (idem_key key) s ≡ r.call_get (idem_key key) t
      → (check r c key s).0 ≡ ok before
      → (check r c key t).0 ≡ ok after
      → before ≡ after
  unfolding check
  check_same s t key before after same first last = elim (Result-cases (r.get (idem_key key) s).0) [
    | inl (v, e) ↦ elim (Result-cases (r.get (idem_key key) t).0) [
      | inl (w, e') ↦ ground (
        arith,
        e,
        e',
        (laws.get_ok s (idem_key key) v e).0,
        (laws.get_ok t (idem_key key) w e').0,
      )
      | inr (cause, e') ↦ ground (arith, e, e')
    ]
    | inr (cause, e) ↦ ground (arith, e)
  ]

  -- A check that gets an answer changes nothing.
  pub check_still :
      (s : r.State) (key : String) (found : Option ResultCache)
      → key ≢ ""
      → (check r c key s).0 ≡ ok found
      → (check r c key s).1 ≡ s
  unfolding check
  check_still s key found h checked = elim (Result-cases (r.get (idem_key key) s).0) [
    | inr (cause, e) ↦ absurd (ground (arith, eq_iff key "", e))
    | inl (v, e) ↦ elim (Option-cases v) [
      | inl missing ↦
          ground (arith, eq_iff key "", e, missing, (laws.get_ok s (idem_key key) v e).1)
      | inr (text, there) ↦ elim (Result-cases (c.unmarshal text)) [
        | inl (cache, d) ↦
            ground (arith, eq_iff key "", e, there, d, (laws.get_ok s (idem_key key) v e).1)
        | inr (cause, d) ↦ absurd (ground (arith, eq_iff key "", e, there, d))
      ]
    ]
  ]

  -- If a result is stored under a key, and a later state has the same text under it, a check of the
  -- key that succeeds there returns that result.
  pub check-stored :
      (s t : r.State) (key : String) (cache : ResultCache) (found : Option ResultCache)
      → key ≢ ""
      → (store r c key cache.invocation_id cache.status cache.result cache.error s).0 ≡ ok tt
      → r.call_get (idem_key key) t
        ≡ r.call_get
            (idem_key key)
            (store r c key cache.invocation_id cache.status cache.result cache.error s).1
      → (check r c key t).0 ≡ ok found
      → found ≡ some cache
  check-stored s t key cache found h stored same checked =
      let (text, encoded, held) = store_lem s key cache h stored in
      check_lem t key text cache found h (same ∙ held) (codec.unmarshal-marshal cache text encoded)
        checked

  -- If a result is stored under a key and the store succeeds, a check of that key that succeeds
  -- returns that result.
  pub check-store :
      (s : r.State) (key : String) (cache : ResultCache) (found : Option ResultCache)
      → key ≢ ""
      → (store r c key cache.invocation_id cache.status cache.result cache.error s).0 ≡ ok tt
      → (check r c key
          (store r c key cache.invocation_id cache.status cache.result cache.error s).1).0
        ≡ ok found
      → found ≡ some cache
  check-store s key cache found h stored checked =
      check-stored s _ key cache found h stored refl checked

  -- Storing a result under one key does not change what a check of another key finds, where both
  -- checks and the store succeed.
  pub check-store_ne :
      (s : r.State) (key other : String) (cache : ResultCache) (before after : Option ResultCache)
      → key ≢ other
      → key ≢ ""
      → (store r c key cache.invocation_id cache.status cache.result cache.error s).0 ≡ ok tt
      → (check r c other s).0 ≡ ok before
      → (check r c other
          (store r c key cache.invocation_id cache.status cache.result cache.error s).1).0
        ≡ ok after
      → before ≡ after
  check-store_ne s key other cache before after apart h stored first last =
      check_same _ _ other before after (sym (store_other s key other cache apart h stored)) first
        last
