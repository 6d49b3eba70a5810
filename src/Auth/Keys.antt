-- ===== src/Auth/Keys.antt =====
-- internal/auth/auth.go: passwords and API keys. bcrypt and crypto/rand are parameters.
use Prim.Native.String.{◌++◌ as str_append}
use text.Mathlib.Text.{starts_with}
use nimbus_run_a_self_hosted.Prelude.{ℕ, String, ◌≡◌, Bool, false, str_eq, if◌then◌else◌}
use nimbus_run_a_self_hosted.Prelude.Exec.{Result, ok, err}

-- bcrypt and crypto/rand. A hash depends on a salt, which the `draw` stands for.
pub record Secrets : Type 0 where
  pub generate_from_password : ℕ → String → Result String
  pub compare_hash_and_password : String → String → Result (Unit {0})
  -- `rand.Read` of so many bytes, in hexadecimal.
  pub read_hex : ℕ → ℕ → Result String

-- A password matches the hash that was made of it.
pub record IsSecrets (s : Secrets) : Type 0 where
  pub compare_generate :
      (draw : ℕ) (password hash : String)
      → s.generate_from_password draw password ≡ ok hash
      → s.compare_hash_and_password hash password ≡ ok tt

abbrev pub api_key_prefix : String
api_key_prefix = "nimbus_"

abbrev pub api_key_header : String
api_key_header = "X-API-Key"

module _ (s : Secrets) where
  unfoldable pub hash_password : ℕ → String → Result String
  hash_password draw password = s.generate_from_password draw password

  unfoldable pub verify_password : String → String → Result (Unit {0})
  verify_password hash password = s.compare_hash_and_password hash password

  unfoldable pub generate_api_key : ℕ → Result String
  generate_api_key draw = elim (s.read_hex draw 24) [
    | err e ↦ err e
    | ok hex ↦ ok (str_append api_key_prefix hex)
  ]

unfoldable pub validate_api_key : String → String → Bool
validate_api_key given expected =
    if starts_with given api_key_prefix then str_eq given expected else false
