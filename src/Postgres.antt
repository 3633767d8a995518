-- ===== src/Postgres.antt =====
-- internal/connector/postgres: the connector that compiles a query to SQL.
pub mod Identifier
pub mod Compile
pub mod Execute
