-- ===== src/Rwlock.antt =====
-- src/rwlock.c: a lock for many readers or one writer.
mod Defs
pub mod Share
pub mod Readers
unfoldable pub use Defs.*
