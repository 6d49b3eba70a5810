-- ===== src/Repository.antt =====
-- internal/repository: the PostgreSQL repositories. Each method is the statement or query that its
-- SQL text states, and the scan of the columns in their order.
pub mod RoundTrip
pub mod Reads
pub mod Rows
pub mod Functions
pub mod Versions
pub mod Invocations
pub mod Transactions
