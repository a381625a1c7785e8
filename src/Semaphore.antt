-- ===== src/Semaphore.antt =====
-- src/semaphore.c: a counter of tokens with a list of waiting tasks.
mod Defs
pub mod Waiters
unfoldable pub use Defs.*
