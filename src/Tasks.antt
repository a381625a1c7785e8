-- ===== src/Tasks.antt =====
-- The life of the operating system and of its tasks, in src/os.c.
mod Setup
mod Control
unfoldable pub use Setup.*
unfoldable pub use Control.*
