-- ===== src/Workflow.antt =====
-- harness/runner.py: how a workflow's phases are run.
pub mod Escalator
pub mod Phases
pub mod Journal
pub mod Approvals
