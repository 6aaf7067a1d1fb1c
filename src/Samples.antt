-- ===== src/Samples.antt =====
-- Small inputs, tests of the definitions on them, and the theorems at them.
mod Routing
mod Cascade
mod Events
mod Tools
mod Loop
mod Ownership
mod Verify
mod BlastRadius
mod Approval
mod Ledger
mod WriteSafety
mod Escalator
mod State
mod Phases
mod Adversarial
mod Boundary
mod TraceEval
