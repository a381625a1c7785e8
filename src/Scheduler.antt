-- ===== src/Scheduler.antt =====
-- The scheduler of src/os.c.
mod Status
mod Dispatch
mod Select
mod Schedule
pub mod Queues
pub mod Invariant
pub mod Walk
pub mod Accounts
pub mod Switch
pub mod Scan
pub mod Turn
pub mod Next
pub mod Past
pub mod Parted
pub mod Detour
pub mod Ready
pub mod Resume
pub mod Leave
pub mod Now
pub mod Frame
unfoldable pub use Status.*
unfoldable pub use Dispatch.*
unfoldable pub use Select.*
unfoldable pub use Schedule.*
