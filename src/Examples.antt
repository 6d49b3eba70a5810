-- ===== src/Examples.antt =====
-- Servers in memory, and the properties at concrete inputs.
pub mod Scheduling
pub mod Server
pub mod Authenticating
pub mod Working
pub mod Running
pub mod Sharing
pub mod Storing
pub mod Commanding
pub mod Locking
pub mod Limiting
pub mod Invoking
pub mod Samples
pub mod Accepting
pub mod Measuring
pub mod Launching
pub mod Serving
pub mod Tables
