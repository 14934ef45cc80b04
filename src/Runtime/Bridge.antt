-- ===== src/Runtime/Bridge.antt =====
-- internal/runtime/copilot.go: interactiveBridge, which pairs the requests that the Copilot session
-- raises (external tools, permissions, user input) with the answers that clients post.
--
-- A pendingResolution is held by pointer in Go: the registries may drop it while a waiter still
-- reads its channel. Here the channels (of capacity one) live in `boxes`, and a PendingResolution
-- names its own by number. Each operation is one critical section under the bridge's mutex.
mod Defs
pub mod Waiting
pub mod Taking
pub mod Answers
mod Registry
pub mod Invariant
pub mod Preserved
pub mod History
pub mod Stranded
pub mod Forgetting
pub mod Serial
pub mod Resolve
pub mod Tests
unfoldable pub use Defs.*
