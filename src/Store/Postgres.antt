-- ===== src/Store/Postgres.antt =====
-- internal/infrastructure/storage/db/pg: the stores in a database. A table is the list of its rows, and
-- the queries are the program's SQL over it; the constraints are those of the migration. Failures of
-- the connection are left out: a statement fails only by a constraint.
pub mod Headers
pub mod Filters
