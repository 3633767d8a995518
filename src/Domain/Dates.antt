-- ===== src/Domain/Dates.antt =====
-- internal/domain/query.go: `Dates`, with `time.Parse` at the layout `time.DateOnly`, "2006-01-02".
pub mod Defs
pub mod Laws
