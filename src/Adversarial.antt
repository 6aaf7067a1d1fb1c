-- ===== src/Adversarial.antt =====
-- harness/adversarial.py, and the contested phase of harness/runner.py.
pub mod Stances
pub mod Lint
pub mod Assemble
pub mod Contest
pub mod Arbitrated
pub mod Positions
pub mod Earned
