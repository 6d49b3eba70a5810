-- ===== src/Platform.antt =====
-- The services and libraries that the program calls and does not contain: each is a record of
-- operations, which the definitions take as a parameter, with a record of documented laws, which
-- only theorems take.
pub mod Redis
pub mod Postgres
pub mod Float
pub mod Data
pub mod Docker
pub mod Gin
pub mod Prometheus
