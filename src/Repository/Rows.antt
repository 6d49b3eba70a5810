-- ===== src/Repository/Rows.antt =====
-- What the repositories share: reading the one row of `QueryRow`, and all the rows of `Query`.
use nimbus_run_a_self_hosted.Prelude.{List, [], ◌∷◌}
use nimbus_run_a_self_hosted.Prelude.Exec.{Error, errorf, Exec, pure, raise, ◌>>=◌}
use nimbus_run_a_self_hosted.Platform.Postgres.{Value}

abbrev pub no_rows : Error
no_rows = errorf "no rows in result set"

abbrev pub wrong_count : Error
wrong_count = errorf "number of field descriptions must equal number of destinations"

-- `Scan` reads the values that have arrived, and touches the server no more.
abbrev pub scanning : {S A : Type 0} → Exec (Unit {0}) A → Exec S A
scanning m s = ((m tt).0, s)

module _ {A : Type 0} (scan : List Value → Exec (Unit {0}) A) where
  unfoldable pub scan_first : List (List Value) → Exec (Unit {0}) A
  scan_first [] = raise no_rows
  scan_first (row ∷ _) = scan row

  -- The loop over `rows.Next()`; the first row that does not scan ends it.
  unfoldable pub scan_all : List (List Value) → Exec (Unit {0}) (List A)
  scan_all [] = pure []
  scan_all (row ∷ rest) = do a ← scan row; others ← scan_all rest; pure (a ∷ others)
