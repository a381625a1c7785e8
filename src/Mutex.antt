-- ===== src/Mutex.antt =====
-- src/mutex.c: a recursive lock with a list of waiting tasks.
mod Defs
pub mod Lock
pub mod Handover
pub mod Waiting
pub mod Acquire
pub mod Detach
pub mod Release
unfoldable pub use Defs.*
