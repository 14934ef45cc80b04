-- ===== src/Runtime.antt =====
-- internal/runtime: the types of runtime.go and the parts of copilot.go that are the gateway's own.
pub mod Types
pub mod Bridge
pub mod Events
pub mod Sdk
pub mod Send
