-- ===== src/Loop.antt =====
-- harness/loop.py: the inner loop that every role runs.
-- `W` is the world outside the loop: the workspace, the model's side, the budget, the strip map, and
-- the events that tools emit. The loop's own events are a list in its state.
mod Defs
mod Calls
mod Turns
pub mod Effects
unfoldable pub use Defs.*
unfoldable pub use Calls.*
unfoldable pub use Turns.*
