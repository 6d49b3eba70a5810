-- ===== src/Retry.antt =====
-- internal/retry: the backoff policy and the dead-letter queue.
pub mod Backoff
pub mod Dlq
pub mod Delays
