-- ===== src/BlastRadius.antt =====
-- harness/blast_radius.py: what an operation may change before it is rolled back.
-- `W` is the phase's workspace. The meters of a phase and of the run are one state here; the locks,
-- which make `apply` and `reserve` one step each, are left out.
mod Meters
mod Files
mod Apply
pub mod Ceilings
pub mod Resume
pub mod Limits
unfoldable pub use Files.*
unfoldable pub use Meters.*
unfoldable pub use Apply.*
