-- ===== src/Queue.antt =====
-- src/queue.c: a bounded queue of messages with a list of waiting tasks.
mod Defs
pub mod Ring
pub mod Fifo
pub mod Direct
unfoldable pub use Defs.*
