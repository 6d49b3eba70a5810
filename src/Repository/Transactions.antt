-- ===== src/Repository/Transactions.antt =====
-- internal/repository/function.go: WithTx. pgx's transactions are a parameter.
use nimbus_run_a_self_hosted.Prelude.Exec.{Exec, finally, ◌>>=◌, ◌>>◌}

pub record Transactions : Type 1 where
  pub State : Type 0
  pub Tx : Type 0
  pub begin : Exec State Tx
  pub commit : Tx → Exec State (Unit {0})
  -- After a commit this does nothing.
  pub rollback : Tx → Exec State (Unit {0})

module _ (t : Transactions) where
  unfoldable pub with_tx : (t.Tx → Exec t.State (Unit {0})) → Exec t.State (Unit {0})
  with_tx fn = t.begin >>= λ tx. finally (fn tx >> t.commit tx) (t.rollback tx)
