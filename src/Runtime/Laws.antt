-- ===== src/Runtime/Laws.antt =====
-- The lemmas on methods and on statements, passed on.
pub mod Flow
pub mod Counts
pub mod Frames
pub use Flow.*
pub use Counts.*
pub use Frames.*
