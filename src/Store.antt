-- ===== src/Store.antt =====
-- pkg/repository and its implementations: the stores of headers and of filters.
pub mod Interface
pub mod Headers
pub mod Filters
pub mod Postgres
