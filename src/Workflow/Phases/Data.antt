-- ===== src/Workflow/Phases/Data.antt =====
-- The data of the phase loop of harness/runner.py, and what surrounds the loop. `W` is the world that running
-- a phase changes, the event log included.
use harnessie.Prelude.{
  ◌≡◌, String, Option, some, List, Bool, true, false, if◌then◌else◌, str_eq, Result,
}
use harnessie.Prelude.Values.{Value}
use harnessie.Routing.{Route}
use harnessie.Loop.{LoopResult}
use harnessie.Verify.{GateResult, Status, passed, needs_human}
use harnessie.Cascade.{CascadePolicy, CascadeError}
use harnessie.WriteSafety.{WriteDeclarationError, WriteConflict, Segment}

pub data PhaseStatus : Type 0 where
  phase_passed phase_needs_human needs_arbitration needs_approval skipped_resume : PhaseStatus

-- `HALT_STATUSES`
unfoldable pub is_halt : PhaseStatus → Bool
is_halt phase_passed = false
is_halt skipped_resume = false
is_halt _ = true

abbrev pub status_text : PhaseStatus → String
status_text phase_passed = "passed"
status_text phase_needs_human = "needs_human"
status_text needs_arbitration = "needs_arbitration"
status_text needs_approval = "needs_approval"
status_text skipped_resume = "skipped_resume"

-- Its costs are stamped from the budget and are not modelled.
pub record PhaseOutcome : Type 0 where
  pub phase : String
  pub status : PhaseStatus
  pub report : String

-- What the loop reads of a phase. An empty `parallel` is no group.
pub record Phase : Type 0 where
  pub name : String
  pub task : String
  pub task_class : String
  pub agent : String
  pub cascade : Option String
  pub parallel : String
  pub adversarial : Bool
  pub inject_memory_status : Bool
  pub writes : Option Value

-- The journal's two keys of a result that the runner records.
pub record StepResult : Type 0 where
  pub status : String
  pub report : String

-- What the loop uses of the run's journal: `has` with `result`, and `record`.
pub record Journal (J : Type 0) : Type 0 where
  pub prior : J → String → Option StepResult
  pub journal_record : String → StepResult → J → J
  pub prior-journal_record :
      (j : J) (name other : String) (r : StepResult)
      → prior (journal_record name r j) other
        ≡ (if str_eq name other then some r else prior j other)

-- The events of the loop, by what they vary in.
pub data PhaseEvent : Type 0 where
  phase_start : String → PhaseEvent
  injection_flag : (phase source : String) → List String → PhaseEvent
  phase_done : String → PhaseStatus → PhaseEvent
  group_start group_done : List String → PhaseEvent
  declaration_invalid : List String → WriteDeclarationError → PhaseEvent
  write_conflict : List WriteConflict → PhaseEvent
  lane_confinement_refused : (phase agent detail : String) → PhaseEvent
  maiden_failed : String → PhaseStatus → PhaseEvent

-- What surrounds the loop. `run_role` is one loop of an agent, `gate` the verification gate with the phase's
-- checks, and `adversarial` the contested phase; they return, since an exception of theirs leaves
-- `run_workflow` at once and is not followed here. `pool` runs tasks on threads, in an order of its own;
-- every outcome is what its task came to in some world.
pub record Surroundings (W : Type 0) : Type 0 where
  pub emit : PhaseEvent → W → W
  -- `guard_result`: the text to show, and the findings
  pub guard : String → String → String × List String
  -- `text.replace(old, new)`
  pub replace : String → String → String → String
  -- `task.rstrip()` with the digest of the memory
  pub with_memory_status : String → W → String
  pub route : String → Route
  pub role_kind : String → String
  pub readonly_paths : String → Result String (List String)
  pub run_role : Phase → String → Route → W → LoopResult × W
  pub gate : Phase → String → Route → Option CascadePolicy → W → GateResult × W
  pub adversarial : Phase → String → W → (PhaseStatus × String) × W
  pub fingerprint : String → Option String
  pub approved : List String
  pub stage : Phase → W → W
  pub propose : Phase → String → W → String × W
  pub budget_exhausted : W → Bool
  pub fold : Segment → Segment
  pub describe_declaration : WriteDeclarationError → String
  pub describe_conflicts : List WriteConflict → String
  pub describe_cascade : CascadeError → String
  pub pool : List (W → PhaseOutcome × W) → W → List PhaseOutcome × W

abbrev pub outcome_of : String → PhaseStatus → String → PhaseOutcome
outcome_of name status report = record { phase = name; status = status; report = report }

abbrev pub gate_status : Status → PhaseStatus
gate_status passed = phase_passed
gate_status needs_human = phase_needs_human

abbrev pub loop_status : Bool → PhaseStatus
loop_status true = phase_passed
loop_status false = phase_needs_human
