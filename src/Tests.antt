-- ===== src/Tests.antt =====
-- Runs of the code at concrete inputs, and each property at one of them.
pub mod Data
pub mod Queries
pub mod Stores
pub mod Requests
pub mod Connector
pub mod Server
pub mod Start
pub mod Views
pub mod Whole
pub mod Documents
pub mod Cache
pub mod Load
