-- ===== src/Query.antt =====
-- internal/query/service.go: the service that validates a query and runs it through its connector.
pub mod Validate
pub mod Service
