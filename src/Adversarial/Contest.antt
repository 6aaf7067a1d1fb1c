-- ===== src/Adversarial/Contest.antt =====
-- `_run_adversarial_phase` of harness/runner.py: positions, objection rounds, the record, and who decides.
use harnessie.Prelude.{
  ℕ, zero, suc, ◌+◌, String, ◌<>◌, Option, none, some, List, [], ◌∷◌, ◌++◌, Bool, true, false, not,
  ◌&&◌, if◌then◌else◌, any, map, mem, str_eq, lookup, insert, clip, ◌==◌, codes, starts_with,
}
use harnessie.Routing.{Route}
use harnessie.Loop.{LoopResult, is_complete}
use harnessie.Verify.{Reading, show_stop}
use harnessie.Workflow.Phases.{PhaseStatus, phase_passed, phase_needs_human, needs_arbitration}
use harnessie.Adversarial.Stances.{
  PositionRecord, Objection, Stance, parse_stance, parse_objection_response, converged,
}
use harnessie.Adversarial.Lint.{Text, Yaml, LintError, LintReport, lint_record, no_errors}
use harnessie.Adversarial.Assemble.{Assembly, assemble_record}

pub data ContestEvent : Type 0 where
  position_recorded : (label model stance : String) → ContestEvent
  objection_recorded : (by text : String) → ContestEvent
  decision_assembled : List String → List LintError → ContestEvent
  decision_converged : ContestEvent
  operator_action : ContestEvent
  decision_arbitrated : Text → ContestEvent
  needs_arbitration_event : List LintError → ContestEvent

-- The phase's document, with the defaults filled in; `rebuttal_rounds` is at least one.
pub record ContestedPhase : Type 0 where
  pub name : String
  pub arbitration : String
  pub further_rounds : ℕ
  pub positions : List (String × String)

-- What surrounds the phase. `run_role` runs an agent without the tools that have side effects; `brain` is the
-- model and the provider of a route; `assembly` fills in the run, the day and a new
-- reference; `describe` adds the record's path and its claims or errors to a report.
pub record Contest (W : Type 0) : Type 0 where
  pub run_role : String → String → Route → W → LoopResult × W
  pub route : String → Route
  pub brain : Route → String × String
  pub is_reserved : String → Bool
  pub read_record : W → Option Text
  pub write_record : Text → W → W
  pub emit : ContestEvent → W → W
  pub assembly : String → W → Assembly
  pub reading : Reading
  pub yaml : Yaml
  pub describe : LintReport → String

pub record Seat : Type 0 where
  pub position : PositionRecord
  pub route : Route

-- The positions that were gathered, or the refusal of a reserved class.
pub data Gathered (W : Type 0) : Type 0 where
  gathered : List Seat → W → Gathered W
  reserved_class : String → W → Gathered W

unfoldable pub position_task : String → String
position_task task =
    task
    <> "\n\n## Position protocol\nYou are one of several agents forming INDEPENDENT positions on this question. You have read-only access: inspect, do not build. You have not been shown the other positions; do not speculate about them. End your task_complete report with exactly one JSON object: {\"stance\": \"recommend|oppose|alternative|abstain\", \"summary\": \"<one sentence>\"} — your prose argument goes before it."

abbrev pub seen_so_far : Option ℕ → ℕ
seen_so_far none = 0
seen_so_far (some n) = n

abbrev others_text : String → List Seat → String
others_text label [] = ""
others_text label (s ∷ seats) =
    let rest = others_text label seats in
    let block =
      "### "
      <> (s.position.label
          <> (" — stance: "
              <> (s.position.stance
                  <> ("\nsummary: " <> (s.position.summary <> ("\n" <> s.position.prose)))))) in
    if str_eq s.position.label label
    then rest
    else if str_eq rest ""
    then block
    else block <> ("\n\n" <> rest)

abbrev standing_text : List Objection → String
standing_text [] = ""
standing_text (o ∷ []) = "- " <> (o.by <> (": " <> o.text))
standing_text (o ∷ q ∷ os) =
    "- " <> (o.by <> (": " <> (o.text <> ("\n" <> standing_text (q ∷ os)))))

abbrev standing_part : String → String
standing_part standing =
    if str_eq standing "" then "" else "## Standing objections\n" <> (standing <> "\n\n")

unfoldable pub objection_task : String → PositionRecord → List Seat → List Objection → String
objection_task task p seats objections =
    task
    <> ("\n\n## Objection round\nYour recorded position ("
        <> (p.label
            <> ("): stance "
                <> (p.stance
                    <> (" — "
                        <> (p.summary
                            <> ("\n\n## Other positions\n"
                                <> (others_text p.label seats
                                    <> ("\n\n"
                                        <> (standing_part (standing_text objections)
                                            <> "Review the other positions for concrete failure modes, contradictions, or risks. End your task_complete report with exactly one JSON object: {\"objections\": [\"<concrete objection>\", ...], \"no_new_objection\": true|false}. An empty list with no_new_objection true means you stand down."))))))))))

abbrev summary_text : List PositionRecord → String
summary_text [] = ""
summary_text (p ∷ []) = p.label <> (": " <> p.summary)
summary_text (p ∷ q ∷ ps) = p.label <> (": " <> (p.summary <> ("; " <> summary_text (q ∷ ps))))

abbrev pub is_unparseable : PositionRecord → Bool
is_unparseable p = starts_with (codes p.summary) (codes "(stance unparseable")

module _ {W : Type 0} (contest : Contest W) (task : String) where
  -- What a finished loop says, and nothing where the loop did not finish.
  abbrev pub stance_said : LoopResult → Option Stance
  stance_said r = if is_complete r.stop then parse_stance contest.reading r.report else none

  abbrev pub objections_said : LoopResult → Option (List String)
  objections_said r =
      if is_complete r.stop then parse_objection_response contest.reading r.report else none

  abbrev pub label_for : String → ℕ → String
  label_for agent n = if n == 1 then agent else agent <> ("-" <> contest.reading.show_index n)

  -- A stance that cannot be read counts as dissent.
  unfoldable pub position_of : String → String → Route → LoopResult → Option Stance → PositionRecord
  position_of label agent route r none = record {
    label = label;
    agent = agent;
    model_id = (contest.brain route).0;
    provider = (contest.brain route).1;
    stance = "abstain";
    summary =
        "(stance unparseable; loop stop: "
        <> (show_stop r.stop <> " — treated as dissent, forcing arbitration)");
    prose = r.report;
  }
  position_of label agent route r (some s) = record {
    label = label;
    agent = agent;
    model_id = (contest.brain route).0;
    provider = (contest.brain route).1;
    stance = s.stance;
    summary = s.summary;
    prose = r.report;
  }

  abbrev pub with_seat : Seat → Gathered W → Gathered W
  with_seat s (gathered seats w) = gathered (s ∷ seats) w
  with_seat s (reserved_class c w) = reserved_class c w

  -- The position round: each agent alone, in the order of the phase.
  unfoldable pub position_round : List (String × String) → List (String × ℕ) → W → Gathered W
  position_round [] seen w = gathered [] w
  position_round ((agent, work_class) ∷ specs) seen w =
      let n = seen_so_far (lookup agent seen) + 1 in
      let route = contest.route work_class in
      let (r, w') = contest.run_role agent (position_task task) route w in
      let p = position_of (label_for agent n) agent route r (stance_said r) in
      let rest =
        position_round specs (insert agent n seen)
          (contest.emit (position_recorded p.label p.model_id p.stance) w') in
      if contest.is_reserved work_class
      then reserved_class work_class w
      else with_seat (record { position = p; route = route }) rest

  unfoldable pub answer_of : String → LoopResult → Option (List String) → List Objection
  answer_of label r none =
      (record {
        by = label;
        text =
            "(unparseable objection response; loop stop: "
            <> (show_stop r.stop <> " — treated as dissent, fail closed)");
      })
      ∷ []
  answer_of label r (some texts) = map (λ t. record { by = label; text = t }) texts

  -- One objection round: `asked` are the seats still to be asked.
  unfoldable pub objection_round : List Seat → List Seat → List Objection → W → List Objection × W
  objection_round seats [] objections w = ([], w)
  objection_round seats (s ∷ asked) objections w =
      let (r, w') =
        contest.run_role s.position.agent (objection_task task s.position seats objections) s.route
          w in
      let rest = objection_round seats asked objections w' in
      (answer_of s.position.label r (objections_said r) ++ rest.0, rest.1)

  unfoldable pub record_objections : List Objection → W → W
  record_objections [] w = w
  record_objections (o ∷ os) w =
      record_objections os (contest.emit (objection_recorded o.by (clip 200 o.text)) w)

  abbrev pub go_round :
      List Objection
      → List Objection
      → W
      → (List Objection → W → List Objection × W)
      → List Objection × W
  go_round [] objections w next = (objections, w)
  go_round (o ∷ new) objections w next =
      next (objections ++ (o ∷ new)) (record_objections (o ∷ new) w)

  -- The rounds that are left; a quiet round ends them.
  unfoldable pub objection_rounds : ℕ → List Seat → List Objection → W → List Objection × W
  objection_rounds zero seats objections w = (objections, w)
  objection_rounds (suc left) seats objections w =
      let (new, w') = objection_round seats seats objections w in
      go_round new objections w' (λ os v. objection_rounds left seats os v)

  abbrev pub positions_of : List Seat → List PositionRecord
  positions_of = map (λ s. s.position)

  -- Convergence passes the phase; anything else waits for the operator.
  unfoldable pub decide_contest :
      Bool → List PositionRecord → LintReport → W → (PhaseStatus × String) × W
  decide_contest true ps lint w = (
    (
      phase_passed,
      "Converged without arbitration — all positions recommend. "
          <> (summary_text ps <> contest.describe lint),
    ),
    contest.emit decision_converged w,
  )
  decide_contest false ps lint w = (
    (needs_arbitration, "contested decision awaits human arbitration: " <> contest.describe lint),
    contest.emit (needs_arbitration_event []) w,
  )

  -- The record is assembled, written and linted.
  unfoldable pub assemble_contest :
      ContestedPhase → List Seat → List Objection → W → (PhaseStatus × String) × W
  assemble_contest ph seats objections w =
      let text = assemble_record (contest.assembly task w) (positions_of seats) objections in
      let lint = lint_record contest.yaml text in
      decide_contest
        (str_eq ph.arbitration "convergence"
          && not (any is_unparseable (positions_of seats))
          && converged (positions_of seats) objections
          && no_errors lint.errors)
        (positions_of seats) lint
        (contest.emit (decision_assembled lint.claims lint.errors) (contest.write_record text w))

  unfoldable pub after_positions : ContestedPhase → Gathered W → (PhaseStatus × String) × W
  after_positions ph (reserved_class c w) = ((phase_needs_human, "reserved: " <> c), w)
  after_positions ph (gathered seats w) =
      let (objections, w') = objection_rounds (suc ph.further_rounds) seats [] w in
      assemble_contest ph seats objections w'

  -- A record that is there is linted again, and its positions are not.
  unfoldable pub resume_contest : Bool → LintReport → W → (PhaseStatus × String) × W
  resume_contest true lint w = (
    (phase_passed, "Arbitrated decision: " <> contest.describe lint),
    contest.emit (decision_arbitrated lint.decision) (contest.emit operator_action w),
  )
  resume_contest false lint w = (
    (needs_arbitration, "decision record awaits human arbitration: " <> contest.describe lint),
    contest.emit (needs_arbitration_event lint.errors) w,
  )

  unfoldable pub contest_with : ContestedPhase → Option Text → W → (PhaseStatus × String) × W
  contest_with ph (some text) w =
      let lint = lint_record contest.yaml text in
      resume_contest (mem "human-arbitrated" lint.claims) lint w
  contest_with ph none w = after_positions ph (position_round ph.positions [] w)

  -- `_run_adversarial_phase`
  unfoldable pub run_adversarial_phase : ContestedPhase → W → (PhaseStatus × String) × W
  run_adversarial_phase ph w = contest_with ph (contest.read_record w) w
