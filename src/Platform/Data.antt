-- ===== src/Platform/Data.antt =====
-- encoding/json as a pair of functions for each type that is encoded, google/uuid, and time.Time.
use nimbus_run_a_self_hosted.Prelude.{ℕ, ◌/◌, String, ◌≡◌}
use nimbus_run_a_self_hosted.Prelude.Exec.{Result, ok, err}
use nimbus_run_a_self_hosted.Prelude.Int.{ℤ, pos, negsuc}

-- A UUID by its 16 bytes read as a number; `uuid.Nil` is 0.
abbrev pub Uuid : Type 0
Uuid = ℕ

abbrev pub nil_uuid : Uuid
nil_uuid = 0

-- Nanoseconds since the Unix epoch.
abbrev pub Time : Type 0
Time = ℤ

-- `time.Second`, in nanoseconds.
abbrev pub second : ℕ
second = 1000000000

-- `time.Time{}`, the first second of the year 1.
abbrev pub zero_time : Time
zero_time = negsuc 62135596799999999999

-- `t.Unix()`, rounded down.
abbrev pub unix : Time → ℤ
unix (pos n) = pos (n / second)
unix (negsuc n) = negsuc (n / second)

-- `created n` is the n-th value that `uuid.New` returns. `partial s` is the value that `uuid.Parse`
-- returns beside an error.
pub record UuidLib : Type 0 where
  pub created : ℕ → Uuid
  pub format : Uuid → String
  pub parse : String → Result Uuid
  pub partial : String → Uuid

pub record IsUuidLib (u : UuidLib) : Type 0 where
  pub parse-format : (id : Uuid) → u.parse (u.format id) ≡ ok id

pub record Codec (A : Type 0) : Type 0 where
  pub marshal : A → Result String
  pub unmarshal : String → Result A

pub record IsCodec {A : Type 0} (c : Codec A) : Type 0 where
  pub unmarshal-marshal : (a : A) (t : String) → c.marshal a ≡ ok t → c.unmarshal t ≡ ok a

-- The bytes of `data, _ := json.Marshal(…)`: none if the encoding failed.
abbrev pub text_or_empty : Result String → String
text_or_empty (ok t) = t
text_or_empty (err e) = ""
