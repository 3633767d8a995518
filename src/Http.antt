-- ===== src/Http.antt =====
-- internal/httpapi/server.go: the handlers of the routes.
pub mod Wire
pub mod Handlers
pub mod Laws
pub mod Etag
pub mod Reedit
pub mod Stream
pub mod Routes
pub mod Safety
pub mod Noted
pub mod Sent
pub mod Announced
pub mod Keeps
pub mod Documents
pub mod Received
