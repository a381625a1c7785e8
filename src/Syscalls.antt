-- ===== src/Syscalls.antt =====
-- The service calls of src/service.c: the functions that run in the handler, and the functions of the
-- application that call them.
pub mod Sleep
mod Plumbing
mod Bodies
mod Calls
unfoldable pub use Plumbing.*
unfoldable pub use Bodies.*
unfoldable pub use Calls.*
