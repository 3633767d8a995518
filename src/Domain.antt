-- ===== src/Domain.antt =====
-- internal/domain: the dataset manifest and the query specification.
pub mod Manifest
pub mod Value
pub mod Spec
pub mod Dates
