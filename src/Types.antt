-- ===== src/Types.antt =====
-- src/types.h: the enumerations, the constants, the structures, and the machine's whole state.
mod Enums
mod Objects
mod Task
mod Globals
pub use Enums.*
pub use Objects.*
pub use Task.*
pub use Globals.*
