-- ===== src/Worker/Loop.antt =====
-- internal/worker/service.go: Service.Start, the loop of a worker.
use nimbus_run_a_self_hosted.Prelude.{Option, none, some, List, [], ◌∷◌}
use nimbus_run_a_self_hosted.Prelude.Exec.{panic_of, Result, err}
use nimbus_run_a_self_hosted.Prelude.Int.{ℤ}
use nimbus_run_a_self_hosted.Prelude.Loops.{Wake, context_done, woken}
use nimbus_run_a_self_hosted.Platform.Data.{Time}
use nimbus_run_a_self_hosted.Worker.Service.{Host, Machine, Service, process_next_job}

-- What one round needs: the time that a container takes, and the wall clock.
pub record Round : Type 0 where
  pub elapsed : ℤ
  pub now : Time

module _ (h : Host) where
  -- The result is `none` while the loop waits for a further event. An error is logged; a panic is not
  -- an error to the loop, and ends the program, as nothing recovers it.
  unfoldable pub start :
      Service → List (Wake (Machine h) Round) → Machine h → Option (Result (Unit {0})) × Machine h
  start svc [] w = (none, w)
  start svc (context_done cause ∷ rest) w = (some (err cause), w)
  start svc (woken meanwhile round ∷ rest) w =
      let done = process_next_job h svc round.elapsed round.now (meanwhile w) in
      elim (panic_of done.0) [ some e ↦ (some (err e), done.1) | none ↦ start svc rest done.1 ]
