-- ===== src/Samples/Phases.antt =====
-- A workflow of one phase and a parallel group, run twice.
use harnessie.Prelude.{
  ℕ, suc, ◌≡◌, refl, String, none, some, List, [], ◌∷◌, false, if◌then◌else◌, str_eq, lookup,
  insert, lookup-insert, ok,
}
use harnessie.Routing.{Route}
use harnessie.Cascade.Config.{CascadeConfig, is_reserved}
use harnessie.Loop.{LoopResult, complete, no_detail}
use harnessie.Verify.{passed}
use harnessie.WriteSafety.{parallel_write_conflicts}
use harnessie.Workflow.Escalator.{resolve_cascade}
use harnessie.Workflow.Phases.{
  Phase, StepResult, PhaseOutcome, phase_passed, Journal, Surroundings, Progress, run_phases,
  visit_phase, resume_phase, start_phase, run_single, run_group, members, settle_all,
  settle_outcome, run_parallel_group, run_declared_group, run_parallel_phase, execute_member,
  render_task, fill_all, fill_in, run_phase, run_worker_phase, execute_standard_phase, run_resolved,
  run_confined, run_agent, is_halt,
}
use harnessie.Workflow.Phases.Order.{phases_of, any_halt, Each, NoRepeat}
use harnessie.Workflow.Phases.Runs.{run_phases-reaches_end}

abbrev a_route : Route
a_route = record { tier = "local"; effort = "low"; alt = 0 }

abbrev no_policies : CascadeConfig
no_policies = record { policies = []; reserved = [] }

abbrev run_in_order : List (ℕ → PhaseOutcome × ℕ) → ℕ → List PhaseOutcome × ℕ
run_in_order [] w = ([], w)
run_in_order (t ∷ ts) w = let rest = run_in_order ts (t w).1 in ((t w).0 ∷ rest.0, rest.1)

in_order-Each : (ts : List (ℕ → PhaseOutcome × ℕ)) (w : ℕ) → Each ts (run_in_order ts w).0
in_order-Each [] w = tt
in_order-Each (t ∷ ts) w = ((w, refl), in_order-Each ts (t w).1)

abbrev report_of : Phase → LoopResult
report_of ph = record {
  stop = complete;
  report = ph.name;
  detail = no_detail;
  steps = 1;
  transcript = [];
}

-- The world counts the events and the runs.
abbrev calm : Surroundings ℕ
calm = record {
  emit = λ e w. suc w;
  guard = λ text source. (text, []);
  replace = λ text old new. text;
  with_memory_status = λ task w. task;
  route = λ c. a_route;
  role_kind = λ agent. if str_eq agent "orchestrator" then "orchestrator" else "worker";
  readonly_paths = λ agent. ok [];
  run_role = λ ph task r w. (report_of ph, suc w);
  gate = λ ph task r p w.
      (record { status = passed; attempts = 1; final_report = ph.name; verdicts = [] }, suc w);
  adversarial = λ ph task w. ((phase_passed, ph.name), w);
  fingerprint = λ name. none;
  approved = [];
  stage = λ ph w. w;
  propose = λ ph report w. ("staged", w);
  budget_exhausted = λ w. false;
  fold = λ s. s;
  describe_declaration = λ e. "";
  describe_conflicts = λ cs. "";
  describe_cascade = λ e. "";
  pool = run_in_order;
}

abbrev step_list : Journal (List (String × StepResult))
step_list = record {
  prior = λ j name. lookup name j;
  journal_record = λ name r j. insert name r j;
  prior-journal_record = λ j name other r. lookup-insert name other r j;
}

abbrev phase_named : String → String → String → Phase
phase_named name agent group = record {
  name = name;
  task = "do it";
  task_class = "default";
  agent = agent;
  cascade = none;
  parallel = group;
  adversarial = false;
  inject_memory_status = false;
  writes = none;
}

abbrev workflow : List Phase
workflow =
    phase_named "plan" "orchestrator" ""
    ∷ phase_named "api" "builder" "build"
    ∷ phase_named "site" "builder" "build"
    ∷ []

abbrev at_start : Progress no_policies calm step_list
at_start = record { world = 0; steps = []; reports = ("goal", "ship") ∷ []; outcomes = [] }

workflow-NoRepeat : NoRepeat workflow
workflow-NoRepeat = ((refl, (refl, tt)), ((refl, tt), (tt, tt)))

nothing_halts :
    any_halt (run_phases no_policies calm step_list workflow [] at_start).outcomes ≡ false
unfolding run_phases visit_phase resume_phase start_phase run_single run_group members settle_all
    settle_outcome run_parallel_group run_declared_group run_parallel_phase execute_member
    render_task fill_all fill_in run_phase run_worker_phase execute_standard_phase run_resolved
    run_confined run_agent is_halt is_reserved resolve_cascade parallel_write_conflicts
nothing_halts = refl

run_phases-reaches_end_example :
    phases_of (run_phases no_policies calm step_list workflow [] at_start).outcomes
    ≡ "plan" ∷ "api" ∷ "site" ∷ []
run_phases-reaches_end_example =
    run_phases-reaches_end no_policies calm step_list in_order-Each workflow at_start
      workflow-NoRepeat refl nothing_halts

-- A group of which one member was verified, and is halted again: the verified member's record is
-- overwritten by its skip, so a further resume runs it again.
abbrev half_done : Progress no_policies calm step_list
half_done = record {
  world = 0;
  steps =
      ("api", record { status = "needs_human"; report = "r" })
      ∷ ("site", record { status = "passed"; report = "verified" })
      ∷ [];
  reports = ("goal", "ship") ∷ [];
  outcomes = [];
}

skip_overwrites :
    lookup "site"
      (run_phases no_policies calm step_list
        (phase_named "api" "builder" "build" ∷ phase_named "site" "builder" "build" ∷ [])
        []
        half_done).steps
    ≡ some (record { status = "skipped_resume"; report = "verified" })
unfolding run_phases visit_phase resume_phase start_phase run_single run_group members settle_all
    settle_outcome run_parallel_group run_declared_group run_parallel_phase execute_member
    render_task fill_all fill_in run_phase run_worker_phase execute_standard_phase run_resolved
    run_confined run_agent is_halt is_reserved resolve_cascade parallel_write_conflicts
skip_overwrites = refl
