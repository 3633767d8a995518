-- ===== src/Assets.antt =====
-- internal/assets/store.go, over the tables of db/migrations.
pub mod Tables
pub mod Store
pub mod Invariant
pub mod History
pub mod Bounds
pub mod Conflict
pub mod Restore
pub mod Noted
pub mod Listing
pub mod Recent
pub mod Versions
