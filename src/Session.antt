-- ===== src/Session.antt =====
-- internal/session: specs, the stored sessions and the session manager.
pub mod Spec
pub mod Store
pub mod FileStore
pub mod Manager
