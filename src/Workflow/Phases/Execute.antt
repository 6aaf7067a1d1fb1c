-- ===== src/Workflow/Phases/Execute.antt =====
-- How one phase is executed: `_render_task`, `_execute_standard_phase_inner`, `_run_maiden_phase`, and the
-- choice between them in `run_workflow` of harness/runner.py.
use harnessie.Prelude.{
  ◌||◌, String, ◌<>◌, Option, none, some, List, [], ◌∷◌, Bool, true, false, if◌then◌else◌, mem,
  str_eq, Result, ok, raise,
}
use harnessie.Routing.{Route}
use harnessie.Loop.{is_complete}
use harnessie.Cascade.{CascadePolicy}
use harnessie.Cascade.Config.{CascadeConfig, is_reserved}
use harnessie.Workflow.Escalator.{Resolved, plain, opted_in, refused, no_ladder, resolve_cascade}
use harnessie.Workflow.Phases.Data.{
  PhaseStatus, phase_passed, phase_needs_human, needs_approval, PhaseOutcome, Phase, injection_flag,
  lane_confinement_refused, maiden_failed, Surroundings, outcome_of, gate_status, loop_status,
}

module _ {W : Type 0} (config : CascadeConfig) (around : Surroundings W) where
  abbrev flag_source : String → String → List String → W → W
  flag_source name key [] w = w
  flag_source name key (f ∷ flags) w =
      around.emit (injection_flag name ("phase:" <> key) (f ∷ flags)) w

  -- One report into a task: another phase's is fenced where it is flagged.
  unfoldable pub fill_in : String → String → String → String → W → String × W
  fill_in name key value task w =
      if str_eq key "goal"
      then (around.replace task ("{" <> (key <> "}")) value, w)
      else (let (text, flags) = around.guard value ("phase:" <> key) in
          (around.replace task ("{" <> (key <> "}")) text, flag_source name key flags w))

  unfoldable pub fill_all : String → List (String × String) → String → W → String × W
  fill_all name [] task w = (task, w)
  fill_all name ((key, value) ∷ reports) task w =
      let (filled, w') = fill_in name key value task w in fill_all name reports filled w'

  -- `_render_task`, and the same lines of the loop.
  unfoldable pub render_task : Phase → List (String × String) → W → String × W
  render_task ph reports w =
      let (task, w') = fill_all ph.name reports ph.task w in
      (if ph.inject_memory_status then around.with_memory_status task w' else task, w')

  -- A phase whose lanes are confined: an orchestrator runs alone, others through the gate.
  unfoldable pub run_agent :
      Bool → Phase → String → Route → Option CascadePolicy → W → PhaseOutcome × W
  run_agent true ph task route policy w =
      let (result, w') = around.run_role ph task route w in
      (outcome_of ph.name (loop_status (is_complete result.stop)) result.report, w')
  run_agent false ph task route policy w =
      let (result, w') = around.gate ph task route policy w in
      (outcome_of ph.name (gate_status result.status) result.final_report, w')

  unfoldable pub run_confined :
      Result String (List String)
      → Phase
      → String
      → Route
      → Option CascadePolicy
      → W
      → PhaseOutcome × W
  run_confined (raise detail) ph task route policy w = (
    outcome_of ph.name phase_needs_human ("invalid ownership lane confinement: " <> detail),
    around.emit (lane_confinement_refused ph.name ph.agent detail) w,
  )
  run_confined (ok paths) ph task route policy w =
      run_agent (str_eq (around.role_kind ph.agent) "orchestrator") ph task route policy w

  -- With the route and the policy resolved. The IndexError of an empty ladder would leave the runner; it is
  -- an outcome here, for a ladder that `load_cascade_config` does not let pass.
  unfoldable pub run_resolved : Resolved → Phase → String → W → PhaseOutcome × W
  run_resolved (plain route) ph task w =
      run_confined (around.readonly_paths ph.agent) ph task route none w
  run_resolved (opted_in policy route) ph task w =
      run_confined (around.readonly_paths ph.agent) ph task route (some policy) w
  run_resolved (refused e) ph task w =
      (outcome_of ph.name phase_needs_human (around.describe_cascade e), w)
  run_resolved no_ladder ph task w = (outcome_of ph.name phase_needs_human "IndexError", w)

  -- `_execute_standard_phase_inner`, with `_reserved_refusal` in front.
  unfoldable pub execute_standard_phase : Phase → String → W → PhaseOutcome × W
  execute_standard_phase ph task w =
      if is_reserved config ph.task_class
      then (outcome_of ph.name phase_needs_human ("reserved: " <> ph.task_class), w)
      else run_resolved (resolve_cascade config ph.cascade (around.route ph.task_class)) ph task w

  -- What follows a staged run: a proposal awaits approval, anything else fails.
  unfoldable pub after_stage : Bool → Phase → PhaseOutcome → W → PhaseOutcome × W
  after_stage true ph outcome w =
      let (notice, w') = around.propose ph outcome.report w in
      (outcome_of ph.name needs_approval notice, w')
  after_stage false ph outcome w = (outcome, around.emit (maiden_failed ph.name outcome.status) w)

  abbrev pub is_passed : PhaseStatus → Bool
  is_passed phase_passed = true
  is_passed _ = false

  -- `_run_maiden_phase`
  unfoldable pub run_maiden_phase : Phase → String → W → PhaseOutcome × W
  run_maiden_phase ph task w =
      let (outcome, w') = execute_standard_phase ph task (around.stage ph w) in
      after_stage (is_passed outcome.status) ph outcome w'

  -- A phase with a fingerprint that is not approved is staged.
  unfoldable pub run_worker_phase : Option String → Phase → String → W → PhaseOutcome × W
  run_worker_phase none ph task w = execute_standard_phase ph task w
  run_worker_phase (some print) ph task w =
      if str_eq print "" || mem print around.approved
      then execute_standard_phase ph task w
      else run_maiden_phase ph task w

  unfoldable pub run_phase : Bool → Phase → String → W → PhaseOutcome × W
  run_phase true ph task w =
      let (decision, w') = around.adversarial ph task w in
      (outcome_of ph.name decision.0 decision.1, w')
  run_phase false ph task w = run_worker_phase (around.fingerprint ph.name) ph task w
