-- ===== src/Lib.antt =====
-- Harnessie, a control plane for runs of language-model agents: what its own code guarantees of a run.
--
-- The parts, and how they interact. The runner (harness/runner.py) executes the phases of a workflow in
-- order, journals each outcome (harness/state.py) and stops at the first that needs the operator; a
-- parallel group passes the preflight of harness/write_safety.py first, and a contested phase is decided as
-- harness/adversarial.py describes. Any other phase is run by the gate (harness/verify.py), which
-- calls a worker, the deterministic checks and a verifier, and picks the route of the next attempt
-- (harness/routing.py, or a policy of harness/cascade.py). Worker and verifier are runs of the loop
-- (harness/loop.py), which asks the model for a turn, charges the budget, and sends each tool call to the
-- registry (harness/tools/registry.py). The registry tests role, consent and approval
-- (harness/approval.py); tools that write ask the ownership ledger (harness/ownership.py) and are metered
-- and rolled back by harness/blast_radius.py. What happens is chained in a log (harness/events.py) that
-- harness/audit.py verifies.
--
-- The files.
-- Prelude: Booleans, numbers, texts, lists, results, JSON values, and Python's splitlines.
-- Routing: harness/routing.py. Route, escalate, Router.route and spec_for in Routing.antt; Budget as the
-- chain of a budget and its parents in Routing/Budget.
-- Cascade: harness/cascade.py. CascadePolicy with its __post_init__, climb_ceiling and next_tier; the
-- startup check validate_against_tiers in Cascade/Config, load_cascade_config in Cascade/Load.
-- Events: EventLog of harness/events.py and verify_chain of harness/audit.py over texts of code points.
-- Tools: ToolRegistry.register, provenance_for, for_role and dispatch of harness/tools/registry.py.
-- Loop: AgentLoop.run of harness/loop.py, in Loop/Defs (state, events, _finish, _dispatch), Loop/Calls
-- (one tool call) and Loop/Turns (one turn, one step, the run).
-- Verify: harness/verify.py. run_checks in Verify/Defs, parse_verdict in Verify/Verdicts,
-- VerificationGate.run in Verify/Run.
-- Ownership: the lanes and claims of harness/ownership.py.
-- BlastRadius: harness/blast_radius.py. The limits, the delta and RunBlastRadius.reserve in
-- BlastRadius/Meters, _snapshot and _restore in BlastRadius/Files, PhaseBlastRadius.apply and both
-- from_events in BlastRadius/Apply, parse_limits in BlastRadius/Limits.
-- Approval: ApprovalPolicy and tty_approval of harness/approval.py.
-- Boundary: harness/boundary.py. Boundary.strip and guard_egress in Boundary.antt; StripMap,
-- RehydrationGrants and rehydrate in Boundary/Rehydration.
-- WriteSafety: the write declarations of a parallel group, harness/write_safety.py.
-- Workflow: harness/runner.py. _resolve_cascade and _cascade_escalator in Workflow/Escalator, with the
-- four moves of an escalation in Workflow/Escalator/Moves; the loop of run_workflow with
-- _run_parallel_group in Workflow/Phases/Rounds, the execution of one phase with _render_task and
-- _run_maiden_phase in Workflow/Phases/Execute, and the run by blocks that it implements in
-- Workflow/Phases/Order. Workflow/Journal is the run's journal as the loop uses it,
-- Workflow/Approvals the phase's approval handler.
-- State: RunState of harness/state.py, and the map of last results that it implements in State/Replay.
-- Adversarial: harness/adversarial.py, with lint_record in Adversarial/Lint and assemble_record in
-- Adversarial/Assemble, and _run_adversarial_phase of harness/runner.py in Adversarial/Contest.
-- TraceEval: analyze_trace of harness/trace_eval.py.
-- Ledger: the one-shot ledger of scripts/pilot_ledger.py, with the disk as a parameter.
-- Samples: small inputs, tests, and the theorems at concrete arguments.
--
-- How state and effects are modelled. The world outside (model, workspace, file system, operator) is a
-- type W that is passed through; a call of the outside is a function of a record (Outside, CheckWorld,
-- FileSystem, ToolRegistry, Surroundings, Contest) or a parameter. The exceptions that the code catches or
-- lets out are values. A loop with several ways out is a function into a type with one constructor for
-- each way. Loops over a range are recursion on the rounds that are left: max_steps for the loop,
-- max_attempts for the gate, rebuttal_rounds for a contest; no fuel is used anywhere. The thread pool of
-- a parallel group is a function that runs tasks in an order of its own, under the hypothesis that each
-- outcome is what its task came to in some world.
--
-- Parameters, since their code is not in the repository or is the system's: json and yaml, regular
-- expressions, SHA-256, fnmatch, repr and str of values, strip and lower, the money type of the budget,
-- the operating system's calls on files, subprocesses and the sandbox, the model, Unicode normalization,
-- str.replace, the thread pool. The runner's own glue stands behind parameters too: what the gate and a
-- role's loop are given, the fencing of harness/quarantine.py, staging and proposing a maiden phase, the
-- memory digest.
--
-- Not modelled: exceptions that leave a gate, a role's loop or a contested phase and so run_workflow itself
-- (the phase loop is modelled for runs in which these return), threads and locks elsewhere (each guarded
-- block is one step), timestamps, a phase's cost,
-- the reading of the runner's configuration, the paths that ownership patterns resolve to, the schema
-- documents, prompts and roles, the command line and reports, memory, identity and plugins, the provider
-- adapters, and the other scripts. Events carry the fields that the code varies; constant ones are left
-- out.
mod Prelude
mod Samples
pub mod Routing
pub mod Cascade
pub mod Events
pub mod Tools
pub mod Loop
pub mod Ownership
pub mod Verify
pub mod BlastRadius
pub mod Approval
pub mod Ledger
pub mod WriteSafety
pub mod Workflow
pub mod State
pub mod Adversarial
pub mod Boundary
pub mod TraceEval
