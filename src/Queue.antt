-- ===== src/Queue.antt =====
-- internal/queue: the job records, the worker's heartbeat, and the queue over Redis streams.
pub mod Types
pub mod Heartbeat
pub mod Stream
pub mod Freshness
pub mod Delivery
pub mod Extension
