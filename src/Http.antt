-- ===== src/Http.antt =====
-- internal/httpapi: the decisions of the HTTP server.
pub mod Permissions
pub mod Keys
pub mod Status
pub mod Features
pub mod Provider
pub mod Attachments
pub mod Continuation
pub mod Conversation
pub mod Preparing
pub mod Tests
