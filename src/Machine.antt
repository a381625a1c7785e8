-- ===== src/Machine.antt =====
-- Programs over the state, with the ways in which C code can fail to return.
mod Program
pub use Program.*
