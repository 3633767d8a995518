-- ===== src/Query/Validate.antt =====
-- internal/query/service.go: `Validate`, the allowlist that a query specification passes.
pub mod Defs
pub mod Accepts
pub mod Normal
