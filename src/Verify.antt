-- ===== src/Verify.antt =====
-- harness/verify.py: the deterministic checks, the verifier's verdict, and the gate.
-- `W` is the world that checks, workers and verifiers may change.
mod Defs
mod Verdicts
pub mod Claims
mod Run
pub mod Soundness
pub mod Decline
unfoldable pub use Defs.*
unfoldable pub use Verdicts.*
unfoldable pub use Run.*
