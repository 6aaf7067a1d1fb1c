-- ===== src/Workflow/Phases.antt =====
-- The phase loop of `run_workflow` in harness/runner.py.
mod Data
mod Execute
mod Rounds
pub mod Names
pub mod Order
pub mod Runs
unfoldable pub use Data.*
unfoldable pub use Execute.*
unfoldable pub use Rounds.*
