-- ===== src/Worker.antt =====
-- internal/worker: the container runner, and the service that takes jobs from the queue.
pub mod Runner
pub mod Service
pub mod Outcomes
pub mod Extension
pub mod Loop
pub mod Steady
