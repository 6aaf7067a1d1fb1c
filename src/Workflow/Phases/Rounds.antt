-- ===== src/Workflow/Phases/Rounds.antt =====
-- The loop over the phases of a workflow in harness/runner.py, with its parallel groups.
-- `J` is the run's journal.
use harnessie.Prelude.{
  String, Option, none, some, List, [], ◌∷◌, ◌++◌, Bool, true, false, if◌then◌else◌, any, map, mem,
  str_eq, insert, Result, ok, raise,
}
use harnessie.Cascade.Config.{CascadeConfig}
use harnessie.WriteSafety.{WriteDeclarationError, WriteConflict, Segment, parallel_write_conflicts}
use harnessie.WriteSafety
use harnessie.Workflow.Phases.Data.{
  phase_needs_human, skipped_resume, is_halt, status_text, PhaseOutcome, Phase, StepResult, Journal,
  phase_start, phase_done, group_start, group_done, declaration_invalid, write_conflict,
  Surroundings, outcome_of,
}
use harnessie.Workflow.Phases.Execute.{render_task, execute_standard_phase, run_phase}

module _ {W : Type 0} (config : CascadeConfig) (around : Surroundings W) where
  abbrev pub is_verified : Option StepResult → Bool
  is_verified none = false
  is_verified (some r) = str_eq r.status "passed"

  abbrev pub prior_report : Option StepResult → String
  prior_report none = ""
  prior_report (some r) = r.report

  -- A member of a group that its resumed run has to execute.
  unfoldable pub execute_member : Phase → List (String × String) → W → PhaseOutcome × W
  execute_member ph reports w =
      if around.budget_exhausted w
      then (outcome_of ph.name phase_needs_human "run budget exhausted", w)
      else (let (task, w') = render_task config around ph reports w in
          let (outcome, w'') = execute_standard_phase config around ph task w' in
          (outcome, around.emit (phase_done ph.name outcome.status) w''))

  -- `_run_parallel_phase`, with what the journal holds of the phase.
  unfoldable pub run_parallel_phase :
      Option StepResult → List (String × String) → Phase → W → PhaseOutcome × W
  run_parallel_phase earlier reports ph w =
      if ph.adversarial
      then (
        outcome_of ph.name phase_needs_human
            "adversarial phases cannot run inside a parallel worker group",
        w,
      )
      else if is_verified earlier
      then (outcome_of ph.name skipped_resume (prior_report earlier), w)
      else execute_member ph reports w

  abbrev pub all_refused : String → List Phase → List PhaseOutcome
  all_refused report = map (λ ph. outcome_of ph.name phase_needs_human report)

  abbrev pub declarations : List Phase → List WriteSafety.Phase
  declarations = map (λ ph. record { name = ph.name; writes = ph.writes })

  module _ {J : Type 0} (journal : Journal J) where
    abbrev pub member_task : List (String × String) → J → Phase → W → PhaseOutcome × W
    member_task reports j ph w = run_parallel_phase (journal.prior j ph.name) reports ph w

    -- The group's outcomes, with the preflight's result given.
    unfoldable pub run_declared_group :
        Result WriteDeclarationError (List WriteConflict)
        → List Phase
        → List (String × String)
        → J
        → W
        → List PhaseOutcome × W
    run_declared_group (raise e) group reports j w = (
      all_refused (around.describe_declaration e) group,
      around.emit (declaration_invalid (map (λ ph. ph.name) group) e) w,
    )
    run_declared_group (ok (c ∷ cs)) group reports j w = (
      all_refused (around.describe_conflicts (c ∷ cs)) group,
      around.emit (write_conflict (c ∷ cs)) w,
    )
    run_declared_group (ok []) group reports j w =
        let (outcomes, w') =
          around.pool (map (λ ph. member_task reports j ph) group)
            (around.emit (group_start (map (λ ph. ph.name) group)) w) in
        (outcomes, around.emit (group_done (map (λ ph. ph.name) group)) w')

    -- `_run_parallel_group`
    unfoldable pub run_parallel_group :
        List Phase → List (String × String) → J → W → List PhaseOutcome × W
    run_parallel_group group reports j w =
        run_declared_group (parallel_write_conflicts around.fold (declarations group)) group reports
          j w

    -- The variables of the loop.
    pub record Progress : Type 0 where
      pub world : W
      pub steps : J
      pub reports : List (String × String)
      pub outcomes : List PhaseOutcome

    -- An outcome that is journaled, and reported to the later phases.
    unfoldable pub settle_outcome : PhaseOutcome → Progress → Progress
    settle_outcome o s = record s {
      steps =
          journal.journal_record o.phase
            (record { status = status_text o.status; report = o.report }) s.steps;
      reports = insert o.phase o.report s.reports;
      outcomes = s.outcomes ++ o ∷ [];
    }

    unfoldable pub settle_all : List PhaseOutcome → Progress → Progress
    settle_all [] s = s
    settle_all (o ∷ os) s = settle_all os (settle_outcome o s)

    -- The loop goes on, with the names that a group has handled, or breaks.
    pub data Next : Type 0 where
      go_on : List String → Progress → Next
      halted : Progress → Next

    abbrev pub go_unless : Bool → List String → Progress → Next
    go_unless true handled s = halted s
    go_unless false handled s = go_on handled s

    -- `phases[idx:]` up to the first phase of another label, without the phase itself, and the rest.
    unfoldable pub members : String → List Phase → List Phase
    members label [] = []
    members label (ph ∷ phs) =
        let later = members label phs in if str_eq ph.parallel label then ph ∷ later else []

    unfoldable pub run_group : List Phase → List String → Progress → Next
    run_group group handled s =
        let (outcomes, w) = run_parallel_group group s.reports s.steps s.world in
        go_unless (any (λ o. is_halt o.status) outcomes) (map (λ ph. ph.name) group ++ handled)
          (settle_all outcomes (record s { world = w }))

    unfoldable pub run_single : Phase → List String → Progress → Next
    run_single ph handled s =
        let (task, w) =
          render_task config around ph s.reports (around.emit (phase_start ph.name) s.world) in
        let (o, w') = run_phase config around ph.adversarial ph task w in
        go_unless (is_halt o.status) handled
          (settle_outcome o (record s { world = around.emit (phase_done ph.name o.status) w' }))

    -- A phase that is not skipped: a group where it names one.
    unfoldable pub start_phase : Bool → Phase → List Phase → List String → Progress → Next
    start_phase true ph phs handled s = run_single ph handled s
    start_phase false ph phs handled s = run_group (ph ∷ members ph.parallel phs) handled s

    -- A phase that a group has not handled: a verified success is skipped.
    unfoldable pub resume_phase : Bool → String → Phase → List Phase → List String → Progress → Next
    resume_phase true report ph phs handled s = go_on handled (record s {
      reports = insert ph.name report s.reports;
      outcomes = s.outcomes ++ outcome_of ph.name skipped_resume report ∷ [];
    })
    resume_phase false report ph phs handled s =
        start_phase (str_eq ph.parallel "") ph phs handled s

    unfoldable pub visit_phase : Phase → List Phase → List String → Progress → Next
    visit_phase ph phs handled s =
        if mem ph.name handled
        then go_on handled s
        else resume_phase (is_verified (journal.prior s.steps ph.name))
            (prior_report (journal.prior s.steps ph.name)) ph phs handled s

    abbrev pub then_next : (List String → Progress → Progress) → Next → Progress
    then_next f (go_on handled s) = f handled s
    then_next f (halted s) = s

    -- The loop over the phases.
    unfoldable pub run_phases : List Phase → List String → Progress → Progress
    run_phases [] handled s = s
    run_phases (ph ∷ phs) handled s =
        then_next (λ h t. run_phases phs h t) (visit_phase ph phs handled s)
