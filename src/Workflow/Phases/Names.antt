-- ===== src/Workflow/Phases/Names.antt =====
-- The names that the outcomes of phases carry, in harness/runner.py.
use harnessie.Prelude.{
  ◌||◌, ◌≡◌, refl, String, Option, none, some, List, Bool, true, false, ◌||◌, if◌then◌else◌, mem,
  str_eq, Result, ok, raise,
}
use harnessie.Routing.{Route}
use harnessie.Cascade.{CascadePolicy}
use harnessie.Cascade.Config.{CascadeConfig, is_reserved}
use harnessie.Workflow.Escalator.{Resolved, plain, opted_in, refused, no_ladder}
use harnessie.Workflow.Phases.{
  PhaseOutcome, Phase, StepResult, Surroundings, run_agent, run_confined, run_resolved,
  execute_standard_phase, after_stage, run_maiden_phase, run_worker_phase, run_phase,
  execute_member, run_parallel_phase, is_verified, render_task,
}

module _ {W : Type 0} (config : CascadeConfig) (around : Surroundings W) where
  pub record Named (name : String) (r : PhaseOutcome × W) : Type 0 where
    pub named : r.0.phase ≡ name

  if-Named :
      (name : String) (b : Bool) (x y : PhaseOutcome × W)
      → Named name x
      → Named name y
      → Named name (if b then x else y)
  if-Named name true x y h k = h
  if-Named name false x y h k = k

  module _ (ph : Phase) (task : String) where
    run_agent-Named :
        (alone : Bool) (route : Route) (policy : Option CascadePolicy) (w : W)
        → Named ph.name (run_agent config around alone ph task route policy w)
    unfolding run_agent
    run_agent-Named true route policy w = record { named = refl }
    run_agent-Named false route policy w = record { named = refl }

    run_confined-Named :
        (lanes : Result String (List String)) (route : Route) (policy : Option CascadePolicy)
        (w : W)
        → Named ph.name (run_confined config around lanes ph task route policy w)
    unfolding run_confined
    run_confined-Named (raise detail) route policy w = record { named = refl }
    run_confined-Named (ok paths) route policy w = run_agent-Named _ route policy w

    run_resolved-Named :
        (r : Resolved) (w : W) → Named ph.name (run_resolved config around r ph task w)
    unfolding run_resolved
    run_resolved-Named (plain route) w = run_confined-Named _ route none w
    run_resolved-Named (opted_in policy route) w = run_confined-Named _ route (some policy) w
    run_resolved-Named (refused e) w = record { named = refl }
    run_resolved-Named no_ladder w = record { named = refl }

    execute_standard_phase-Named :
        (w : W) → Named ph.name (execute_standard_phase config around ph task w)
    unfolding execute_standard_phase
    execute_standard_phase-Named w =
        if-Named ph.name (is_reserved config ph.task_class) _ _ (record { named = refl })
          (run_resolved-Named _ w)

    after_stage-Named :
        (b : Bool) (r : PhaseOutcome × W)
        → Named ph.name r
        → Named ph.name (after_stage config around b ph r.0 r.1)
    unfolding after_stage
    after_stage-Named true r n = record { named = refl }
    after_stage-Named false r n = record { named = n.named }

    run_worker_phase-Named :
        (print : Option String) (w : W)
        → Named ph.name (run_worker_phase config around print ph task w)
    unfolding run_worker_phase run_maiden_phase
    run_worker_phase-Named none w = execute_standard_phase-Named w
    run_worker_phase-Named (some print) w =
        if-Named ph.name (str_eq print "" || mem print around.approved) _ _
          (execute_standard_phase-Named w)
          (after_stage-Named _ (execute_standard_phase config around ph task (around.stage ph w))
            (execute_standard_phase-Named (around.stage ph w)))

    pub run_phase-Named : (b : Bool) (w : W) → Named ph.name (run_phase config around b ph task w)
    unfolding run_phase
    run_phase-Named true w = record { named = refl }
    run_phase-Named false w = run_worker_phase-Named _ w

  execute_member-Named :
      (ph : Phase) (reports : List (String × String)) (w : W)
      → Named ph.name (execute_member config around ph reports w)
  unfolding execute_member
  execute_member-Named ph reports w =
      if-Named ph.name (around.budget_exhausted w) _ _ (record { named = refl })
        (record {
          named =
              (execute_standard_phase-Named ph (render_task config around ph reports w).0
                (render_task config around ph reports w).1).named;
        })

  pub run_parallel_phase-Named :
      (earlier : Option StepResult) (reports : List (String × String)) (ph : Phase) (w : W)
      → Named ph.name (run_parallel_phase config around earlier reports ph w)
  unfolding run_parallel_phase
  run_parallel_phase-Named earlier reports ph w =
      if-Named ph.name ph.adversarial _ _ (record { named = refl })
        (if-Named ph.name (is_verified config around earlier) _ _ (record { named = refl })
          (execute_member-Named ph reports w))
