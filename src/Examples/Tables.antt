-- ===== src/Examples/Tables.antt =====
-- A database and the other libraries, with the laws that they keep.
use Prim.Native.String.{[] as empty, ◌∷◌ as char_cons}
use mathlib.Core.List.{map}
use nimbus_run_a_self_hosted.Prelude.{
  ℕ, zero, suc, ◌+◌, ◌/◌, ◌*◌, String, ◌≡◌, refl, sym, ap, ◌∙◌, Bool, true, Option, none, some,
  List, [], ◌∷◌, ◌++◌, str_eq, if◌then◌else◌, select, arith, eq_iff, ltb, inl, inr, Bool-cases,
  lookup,
}
use nimbus_run_a_self_hosted.Prelude.Exec.{errorf, Result, ok, err}
use nimbus_run_a_self_hosted.Prelude.Int.{ℤ, pos, above, leb_ℤ, ◌≤ℤ◌}
use nimbus_run_a_self_hosted.Prelude.Members.{In}
use nimbus_run_a_self_hosted.Platform.Data.{Uuid, UuidLib, IsUuidLib, Codec, IsCodec}
use nimbus_run_a_self_hosted.Platform.Docker.{Docker, exited}
use nimbus_run_a_self_hosted.Platform.Postgres.{
  Postgres, IsPostgres, Row, Value, text, int, uuid, bool, time, Statement, insert, update, null,
  increment, delete, cell, has, pair_up, updated,
}
use nimbus_run_a_self_hosted.Platform.Float.{Float64, IsFloat64}

abbrev pub Tables : Type 0
Tables = String → List Row

abbrev pub with_table : String → List Row → Tables → Tables
with_table k rows s j = if str_eq k j then rows else s j

abbrev pub stamped : Row
stamped =
    ("active_version_id", uuid 0) ∷ ("created_at", time (pos 5)) ∷ ("updated_at", time (pos 5)) ∷ []

abbrev pub run_statement : Statement → Tables → Tables
run_statement (insert table cs vs) s =
    with_table table (s table ++ (pair_up cs vs ++ stamped) ∷ []) s
run_statement (update table sets k v) s = with_table table (updated sets k v (s table)) s
run_statement (increment table c k v) s = s
run_statement (delete table k v) s = with_table table [] s

abbrev pub matching : Option (String × Value) → List Row → List Row
matching none rows = rows
matching (some (k, v)) rows = select (has k v) rows

abbrev pub scan_text : Value → Result String
scan_text (text a) = ok a
scan_text _ = err (errorf "cannot scan")

abbrev pub scan_int : Value → Result ℤ
scan_int (int a) = ok a
scan_int _ = err (errorf "cannot scan")

abbrev pub scan_uuid : Value → Result Uuid
scan_uuid (uuid a) = ok a
scan_uuid _ = err (errorf "cannot scan")

abbrev pub scan_bool : Value → Result Bool
scan_bool (bool a) = ok a
scan_bool _ = err (errorf "cannot scan")

abbrev pub scan_time : Value → Result ℤ
scan_time (time a) = ok a
scan_time _ = err (errorf "cannot scan")

abbrev larger : ℤ → ℤ → ℤ
larger a b = if leb_ℤ a b then b else a

abbrev number_or : ℤ → Value → ℤ
number_or m (int n) = larger n m
number_or m (text s) = m
number_or m (uuid s) = m
number_or m (bool s) = m
number_or m (time s) = m
number_or m null = m

-- `COALESCE(MAX(column), 0)` of the rows that have a value in a column.
abbrev greatest : String → String → Value → List Row → ℤ
greatest column k v [] = pos 0
greatest column k v (r ∷ rs) =
    let rest = greatest column k v rs in if has k v r then number_or rest (cell r column) else rest

≤ℤ_trans : (a b c : ℤ) → a ≤ℤ b → b ≤ℤ c → a ≤ℤ c
≤ℤ_trans a b c h h' = omega arith

larger_left : (a b : ℤ) → a ≤ℤ larger a b
larger_left a b = ground arith

number_or_bound : (m : ℤ) (v : Value) → m ≤ℤ number_or m v
number_or_bound m (int n) = ground arith
number_or_bound m (text s) = ground arith
number_or_bound m (uuid s) = ground arith
number_or_bound m (bool s) = ground arith
number_or_bound m (time s) = ground arith
number_or_bound m null = ground arith

greatest_bound :
    (column k : String) (v : Value) (rs : List Row) (r : Row) (n : ℤ)
    → In r rs
    → has k v r ≡ true
    → cell r column ≡ int n
    → n ≤ℤ greatest column k v rs
unfolding lookup
greatest_bound column k v [] r n m e f = absurd m
greatest_bound column k v (x ∷ xs) r n (inl q) e f =
    rw (sym (ap (has k v) q) ∙ e, sym (ap (λ row. cell row column) q) ∙ f) (larger_left n _)
greatest_bound column k v (x ∷ xs) r n (inr m) e f = elim (Bool-cases (has k v x)) [
  | inl here ↦ rw here (
      ≤ℤ_trans n (greatest column k v xs) _ (greatest_bound column k v xs r n m e f)
        (number_or_bound _ (cell x column)))
  | inr other ↦ rw other (greatest_bound column k v xs r n m e f)
]

abbrev pub tables : Postgres
tables = record {
  State = Tables;
  exec = λ statement s. (ok tt, run_statement statement s);
  query = λ q s. (ok (map (λ r. map (cell r) q.columns) (matching q.filter (s q.table))), s);
  query_max = λ column table k v s. (ok ((int (greatest column k v (s table)) ∷ []) ∷ []), s);
  scan_text = scan_text;
  scan_int = scan_int;
  scan_uuid = scan_uuid;
  scan_bool = scan_bool;
  scan_time = scan_time;
  rows = λ s table. s table;
  defaults = λ s table. stamped;
}

pub tables-IsPostgres : IsPostgres tables
tables-IsPostgres = record {
  insert_ok = λ s table cs vs e. ground (arith, eq_iff table table);
  insert_other = λ s table cs vs other apart. ground (arith, eq_iff table other);
  update_ok = λ s table sets k v e. ground (arith, eq_iff table table);
  query_ok = λ s columns table k v found e. ground (arith, e);
  query_rows = λ s q table. refl;
  query_max_ok = λ s column table k v found e. (
    greatest column k v (s table),
    ground (arith, e),
    λ r n m e f. greatest_bound column k v (s table) r n m e f,
  );
  query_max_rows = λ s column table k v other. refl;
  scan_text_ok = λ a. refl;
  scan_int_ok = λ a. refl;
  scan_uuid_ok = λ a. refl;
  scan_bool_ok = λ a. refl;
  scan_time_ok = λ a. refl;
}

-- Floats that are natural numbers.
abbrev pub whole : Float64
whole = record {
  Float = ℕ;
  lit = λ n d. n;
  of_int = above;
  to_int = pos;
  add = λ x y. x + y;
  mul = λ x y. x * y;
  div = λ x y. x / y;
  pow = λ x y. x;
  lt = ltb;
}

pub whole-IsFloat64 : IsFloat64 whole
whole-IsFloat64 = record { lt_irrefl = λ x. ground arith; lt_trans = λ x y z h h'. ground arith }

-- An id by as many strokes.
abbrev pub strokes : ℕ → String
strokes zero = ""
strokes (suc n) = char_cons "i" (strokes n)

abbrev pub count_strokes : String → ℕ
count_strokes empty = 0
count_strokes (char_cons c s) = suc (count_strokes s)

count_strokes-strokes : (n : ℕ) → count_strokes (strokes n) ≡ n
count_strokes-strokes zero = refl
count_strokes-strokes (suc n) = ap suc (count_strokes-strokes n)

abbrev pub stroke_ids : UuidLib
stroke_ids = record {
  created = suc;
  format = strokes;
  parse = λ s. ok (count_strokes s);
  partial = λ s. 0;
}

pub stroke_ids-IsUuidLib : IsUuidLib stroke_ids
stroke_ids-IsUuidLib = record { parse-format = λ id. ap ok (count_strokes-strokes id) }

-- A codec that knows one value.
abbrev pub codec_of : {A : Type 0} → (A → Bool) → A → Codec A
codec_of is a = record {
  marshal = λ b. if is b then ok "{}" else err (errorf "unsupported value");
  unmarshal = λ t. if str_eq t "{}" then ok a else err (errorf "unexpected end of JSON input");
}

pub codec_of-IsCodec :
    {A : Type 0} (is : A → Bool) (a : A) → ((b : A) → is b ≡ true → a ≡ b) → IsCodec (codec_of is a)
codec_of-IsCodec is a only = record {
  unmarshal-marshal = λ b t e. elim (Bool-cases (is b)) [
    | inl known ↦ ground (arith, known, e, eq_iff t "{}", only b known)
    | inr unknown ↦ absurd (ground (arith, unknown, e))
  ];
}

-- Containers that can be created if their image is not the empty text, and exit with status 1.
abbrev pub containers : Docker
containers = record {
  State = ℕ;
  image_pull = λ image s.
      if str_eq image "" then (err (errorf "invalid reference format"), s) else (ok tt, s);
  container_create = λ c h name s. (ok "c1", suc s);
  container_start = λ id s. (ok tt, s);
  container_wait = λ id s. (exited (pos 1), s);
  container_kill = λ id s. (ok tt, s);
  format_int = λ n. "30";
}
