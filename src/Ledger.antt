-- ===== src/Ledger.antt =====
-- scripts/pilot_ledger.py: the one-shot ledger of an approved pilot run.
mod Defs
mod Receipts
mod Attempts
pub mod Limits
pub mod Runs
unfoldable pub use Defs.*
unfoldable pub use Receipts.*
unfoldable pub use Attempts.*
