-- ===== src/Config/Defaults.antt =====
-- internal/config/config.go: what the defaults make of the configuration.
use nimbus_run_a_self_hosted.Prelude.{
  String, ◌≡◌, refl, ◌∙◌, ap, Bool, true, false, not, ◌&&◌, List, [], ◌∷◌, str_eq, if◌then◌else◌,
  arith,
}
use nimbus_run_a_self_hosted.Prelude.Exec.{Result, ok}
use nimbus_run_a_self_hosted.Config.{
  Viper, Setting, text, int, defaults, set_defaults, database_config,
}

-- viper where no environment variable is set.
pub record IsViper (v : Viper) : Type 0 where
  pub text_default :
      (k j t : String) (s : v.State)
      → v.decode_text (v.set_default k (text t) s) j
        ≡ (if str_eq k j then ok t else v.decode_text s j)
  pub other_default :
      (k j : String) (value : Setting) (s : v.State)
      → str_eq k j ≡ false
      → v.decode_text (v.set_default k value s) j ≡ v.decode_text s j
  pub no_value :
      (prefix k : String)
      → v.decode_text (v.automatic_env (v.set_env_prefix prefix v.new)) k ≡ ok ""

-- The last text at a key.
abbrev text_at : String → List (String × Setting) → Result String → Result String
text_at j [] r = r
text_at j ((k, text t) ∷ ds) r = text_at j ds (if str_eq k j then ok t else r)
text_at j ((k, int n) ∷ ds) r = text_at j ds r

-- No number is at a key.
abbrev only_texts : String → List (String × Setting) → Bool
only_texts j [] = true
only_texts j ((k, text t) ∷ ds) = only_texts j ds
only_texts j ((k, int n) ∷ ds) = not (str_eq k j) && only_texts j ds

module _ (v : Viper) (laws : IsViper v) where
  decode_text-set_defaults :
      (j : String) (ds : List (String × Setting)) (s : v.State)
      → only_texts j ds ≡ true
      → v.decode_text (set_defaults v ds s) j ≡ text_at j ds (v.decode_text s j)
  unfolding set_defaults
  decode_text-set_defaults j [] s h = refl
  decode_text-set_defaults j ((k, text t) ∷ ds) s h =
      decode_text-set_defaults j ds (v.set_default k (text t) s) h
      ∙ ap (text_at j ds) (laws.text_default k j t s)
  decode_text-set_defaults j ((k, int n) ∷ ds) s h =
      decode_text-set_defaults j ds (v.set_default k (int n) s) (ground (arith, h))
      ∙ ap (text_at j ds) (laws.other_default k j (int n) s (ground (arith, h)))

  at :
      (j : String) (s : v.State)
      → only_texts j defaults ≡ true
      → v.decode_text s j ≡ ok ""
      → v.decode_text (set_defaults v defaults s) j ≡ text_at j defaults (ok "")
  at j s h e = decode_text-set_defaults j defaults s h ∙ ap (text_at j defaults) e

  -- If no environment variable is set, then `Load` reads the defaults of the database, except that
  -- the name of the database is empty: its default is set at a key that is not read.
  pub database_config_lem :
      (prefix : String)
      → (database_config v
          (set_defaults v defaults (v.automatic_env (v.set_env_prefix prefix v.new)))).0
        ≡ ok (record {
          host = "localhost";
          port = "5432";
          user = "nimbusrun";
          password = "nimbusrun";
          db_name = "";
          ssl_mode = "disable";
        })
  unfolding database_config defaults
  database_config_lem prefix =
      let s = v.automatic_env (v.set_env_prefix prefix v.new) in
      let read =
        λ (j : String) (h : only_texts j defaults ≡ true). at j s h (laws.no_value prefix j) in
      rw
        (
          read "database.host" refl,
          read "database.port" refl,
          read "database.user" refl,
          read "database.password" refl,
          read "database.dbnam" refl,
          read "database.sslmode" refl,
        )
        refl
