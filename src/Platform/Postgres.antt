-- ===== src/Platform/Postgres.antt =====
-- pgx and the server behind it. The SQL of the program is data: a statement is handed to the
-- server as it is written in the source, and the laws say what a success does to the table's rows.
use nimbus_run_a_self_hosted.Prelude.{
  String, ◌≡◌, ◌≢◌, Bool, true, false, Option, none, some, List, [], ◌∷◌, ◌++◌, map, str_eq,
  if◌then◌else◌, ◌==◌, lookup, select, assign,
}
use nimbus_run_a_self_hosted.Prelude.Members.{In}
use nimbus_run_a_self_hosted.Prelude.Exec.{Result, Exec, ok}
use nimbus_run_a_self_hosted.Prelude.Int.{ℤ, eqb_ℤ, ◌≤ℤ◌}
use nimbus_run_a_self_hosted.Platform.Data.{Uuid, Time}

pub data Value : Type 0 where
  text : String → Value
  int : ℤ → Value
  uuid : Uuid → Value
  bool : Bool → Value
  time : Time → Value
  null : Value

-- A row by its columns.
abbrev pub Row : Type 0
Row = List (String × Value)

-- `INSERT INTO table (columns) VALUES (values)`, `UPDATE table SET sets WHERE key = value`,
-- `UPDATE table SET column = column + 1 WHERE key = value`, `DELETE FROM table WHERE key = value`.
pub data Statement : Type 0 where
  insert : String → List String → List Value → Statement
  update : String → List (String × Value) → String → Value → Statement
  increment : String → String → String → Value → Statement
  delete : String → String → Value → Statement

-- `SELECT columns FROM table WHERE key = value ORDER BY order DESC LIMIT limit`.
pub record Query : Type 0 where
  pub columns : List String
  pub table : String
  pub filter : Option (String × Value)
  pub order_desc : Option String
  pub limit : Option ℤ

-- `SELECT columns FROM table WHERE key = value`, in no stated order.
abbrev pub by_key : List String → String → String → Value → Query
by_key columns table key value = record {
  columns = columns;
  table = table;
  filter = some (key, value);
  order_desc = none;
  limit = none;
}

pub record Postgres : Type 1 where
  pub State : Type 0
  pub exec : Statement → Exec State (Unit {0})
  pub query : Query → Exec State (List (List Value))
  -- `SELECT COALESCE(MAX(column), 0) FROM table WHERE key = value`: column, table, key, value.
  pub query_max : String → String → String → Value → Exec State (List (List Value))
  pub scan_text : Value → Result String
  pub scan_int : Value → Result ℤ
  pub scan_uuid : Value → Result Uuid
  pub scan_bool : Value → Result Bool
  pub scan_time : Value → Result Time
  pub rows : State → String → List Row
  pub defaults : State → String → Row

abbrev pub same : Value → Value → Bool
same (text a) (text b) = str_eq a b
same (int a) (int b) = eqb_ℤ a b
same (uuid a) (uuid b) = a == b
same _ _ = false

abbrev pub has : String → Value → Row → Bool
has k v r = elim (lookup k r) [ none ↦ false | some w ↦ same v w ]

abbrev pub pair_up : List String → List Value → Row
pair_up [] vs = []
pair_up (c ∷ cs) [] = []
pair_up (c ∷ cs) (v ∷ vs) = (c, v) ∷ pair_up cs vs

abbrev pub cell : Row → String → Value
cell r c = elim (lookup c r) [ none ↦ null | some v ↦ v ]

abbrev pub set_all : List (String × Value) → Row → Row
set_all [] r = r
set_all ((c, v) ∷ sets) r = assign c v (set_all sets r)

abbrev pub updated : List (String × Value) → String → Value → List Row → List Row
updated sets k v = map λ r. if has k v r then set_all sets r else r

-- What a success of each statement does to the rows of its table.
pub record IsPostgres (p : Postgres) : Type 0 where
  pub insert_ok :
      (s : p.State) (table : String) (cs : List String) (vs : List Value)
      → (p.exec (insert table cs vs) s).0 ≡ ok tt
      → p.rows (p.exec (insert table cs vs) s).1 table
        ≡ p.rows s table ++ (pair_up cs vs ++ p.defaults s table) ∷ []
  pub insert_other :
      (s : p.State) (table : String) (cs : List String) (vs : List Value) (other : String)
      → table ≢ other
      → p.rows (p.exec (insert table cs vs) s).1 other ≡ p.rows s other
  pub update_ok :
      (s : p.State) (table : String) (sets : List (String × Value)) (k : String) (v : Value)
      → (p.exec (update table sets k v) s).0 ≡ ok tt
      → p.rows (p.exec (update table sets k v) s).1 table ≡ updated sets k v (p.rows s table)
  pub query_ok :
      (s : p.State) (columns : List String) (table k : String) (v : Value)
      (found : List (List Value))
      → (p.query (by_key columns table k v) s).0 ≡ ok found
      → found ≡ map (λ r. map (cell r) columns) (select (has k v) (p.rows s table))
  -- A query changes no row.
  pub query_rows :
      (s : p.State) (q : Query) (table : String) → p.rows (p.query q s).1 table ≡ p.rows s table
  -- The maximum is one row of one number, at least each number in the column, and changes no row.
  pub query_max_ok :
      (s : p.State) (column table k : String) (v : Value) (found : List (List Value))
      → (p.query_max column table k v s).0 ≡ ok found
      → (m : ℤ) × (found ≡ (int m ∷ []) ∷ [])
        × ((r : Row) (n : ℤ)
            → In r (p.rows s table)
            → has k v r ≡ true
            → cell r column ≡ int n
            → n ≤ℤ m)
  pub query_max_rows :
      (s : p.State) (column table k : String) (v : Value) (other : String)
      → p.rows (p.query_max column table k v s).1 other ≡ p.rows s other
  pub scan_text_ok : (a : String) → p.scan_text (text a) ≡ ok a
  pub scan_int_ok : (a : ℤ) → p.scan_int (int a) ≡ ok a
  pub scan_uuid_ok : (a : Uuid) → p.scan_uuid (uuid a) ≡ ok a
  pub scan_bool_ok : (a : Bool) → p.scan_bool (bool a) ≡ ok a
  pub scan_time_ok : (a : Time) → p.scan_time (time a) ≡ ok a
