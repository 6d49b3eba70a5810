-- ===== src/Prelude/Loops.antt =====
-- The loops of the programs: `for` around a `select` on a context and a ticker. What the select yields
-- is an argument, one event for each round, and so is what others do to the shared state meanwhile.
use nimbus_run_a_self_hosted.Prelude.Exec.{Error}

-- `context_done` carries `ctx.Err()`; `woken` carries the change that others made to the state while
-- the loop waited, and the inputs of its next round.
pub data Wake (S A : Type 0) : Type 0 where
  context_done : Error → Wake S A
  woken : (S → S) → A → Wake S A
