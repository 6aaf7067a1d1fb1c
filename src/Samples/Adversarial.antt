-- ===== src/Samples/Adversarial.antt =====
-- A contested phase that two agents agree on, and one that an operator has arbitrated.
use harnessie.Prelude.{
  ℕ, suc, ◌≡◌, ◌⊎◌, refl, String, Option, none, some, [], ◌∷◌, true, false, if◌then◌else◌, str_eq,
  clip, ltb, codes, splitlines,
}
use harnessie.Prelude.Values.{Value, str, obj, seq_of, done, Fields, end, field}
use harnessie.Loop.{LoopResult, complete, no_detail}
use harnessie.Verify.{Reading, objects_from}
use harnessie.Workflow.Phases.{phase_passed, needs_arbitration}
use harnessie.Adversarial.Stances.{
  parse_stance, stance_in, stance_of, parse_objection_response, objections_in, objections_of,
  converged,
}
use harnessie.Adversarial.Lint.{
  Text, Yaml, lint_record, frontmatter, frontmatter_of, sections, sections_from, positions_meta,
  metas_from, add_meta, bullet, arb_meta, arb_from, add_arb, report_lint, lint_errors,
  status_errors, earned, meta_errors, is_complete_arb,
}
use harnessie.Adversarial.Assemble.{
  assemble_record, head_lines, position_lines, objection_lines, fence_prose,
}
use harnessie.Adversarial.Arbitrated.{Arbitrated}
use harnessie.Adversarial.Contest.{
  ContestedPhase, Contest, run_adversarial_phase, contest_with, resume_contest, after_positions,
  assemble_contest, decide_contest, objection_rounds, objection_round, answer_of, position_round,
  position_of, record_objections, position_task, objection_task,
}
use harnessie.Adversarial.Earned.{Agreed, run_adversarial_phase-Agreed}

abbrev shown_value : Value → String
shown_value (str s) = s
shown_value _ = "value"

abbrev decode_report : String → Option (Value × ℕ)
decode_report s =
    if str_eq (clip 2 s) "{s"
    then some (obj (field "stance" (str "recommend") (field "summary" (str "ship it") end)), 2)
    else some (obj (field "objections" (seq_of done) end), 2)

abbrev plain_reading : Reading
plain_reading = record {
  raw_decode = decode_report;
  repr = shown_value;
  show = shown_value;
  show_index = λ n. "2";
  strip = λ s. s;
  lower = λ s. s;
}

abbrev said : String → LoopResult
said report = record {
  stop = complete;
  report = report;
  steps = 1;
  transcript = [];
  detail = no_detail;
}

abbrev front : String → Fields
front status = field "id" (str "DR-a") (
    field "title" (str "t") (
      field "status" (str status)
        (field "date" (str "d") (field "arbiter" (str "o") (field "decided" (str "d") end)))))

abbrev plain_yaml : String → Yaml
plain_yaml status = record {
  safe_load = λ t. some (obj (front status));
  show = λ v. codes (shown_value v);
  truthy = λ v. true;
}

-- The world counts the runs of agents: the first two give positions, the others stand down.
abbrev calm_contest : Option Text → String → Contest ℕ
calm_contest file status = record {
  run_role = λ agent task r w. (said (if ltb w 2 then "{s}" else "{o}"), suc w);
  route = λ c. record { tier = "local"; effort = "low"; alt = 0 };
  brain = λ r. ("small", "mock");
  is_reserved = λ c. false;
  read_record = λ w. file;
  write_record = λ t w. w;
  emit = λ e w. w;
  assembly = λ task w. record {
    record_id = "DR-a";
    ref = "7";
    title = "t";
    quoted_title = "t";
    date = "d";
    quoted_arbiter = "o";
    context = "c";
    question = task;
    evidence = [];
  };
  reading = plain_reading;
  yaml = plain_yaml status;
  describe = λ l. "";
}

abbrev contested : ContestedPhase
contested = record {
  name = "choice";
  arbitration = "convergence";
  further_rounds = 0;
  positions = ("ann", "review") ∷ ("bob", "review") ∷ [];
}

abbrev arbitrated_text : Text
arbitrated_text =
    codes
      "---\nid: a\n---\n## Context\n## Question\n## Positions\n### Position: ann\n- agent: ann\n- model: m\n- provider: p\n- stance: oppose\n- summary: s\n## Arbitration\n- decided_by: me\n- date: d\n- decision: no\n"

arbitrated_passes :
    (run_adversarial_phase
      (calm_contest (some arbitrated_text) "arbitrated")
      "Which?"
      contested
      0).0.0
    ≡ phase_passed
unfolding run_adversarial_phase contest_with resume_contest lint_record frontmatter frontmatter_of
    sections sections_from positions_meta metas_from add_meta bullet arb_meta arb_from add_arb
    report_lint lint_errors status_errors earned meta_errors is_complete_arb splitlines
arbitrated_passes = refl

agreed_passes :
    (run_adversarial_phase (calm_contest none "open") "Which?" contested 0).0.0 ≡ phase_passed
unfolding run_adversarial_phase contest_with resume_contest lint_record frontmatter frontmatter_of
    sections sections_from positions_meta metas_from add_meta bullet arb_meta arb_from add_arb
    report_lint lint_errors status_errors earned meta_errors is_complete_arb splitlines
    after_positions position_round position_of parse_stance stance_in stance_of objects_from
    objection_rounds objection_round answer_of parse_objection_response objections_in objections_of
    assemble_contest decide_contest converged assemble_record head_lines position_lines
    objection_lines fence_prose record_objections position_task objection_task
agreed_passes = refl

run_adversarial_phase-Agreed_example :
    ((text : Text) × (◌≡◌ {A = Option Text} none (some text)) × Arbitrated (plain_yaml "open") text)
    ⊎ ((◌≡◌ {A = Option Text} none none) × Agreed (calm_contest none "open") "Which?" contested 0)
run_adversarial_phase-Agreed_example =
    run_adversarial_phase-Agreed (calm_contest none "open") "Which?" contested 0 agreed_passes

-- The same contest, where the first two reports hold a rule: the lint takes it for the end of the record.
abbrev ruled_contest : Contest ℕ
ruled_contest = record (calm_contest none "open") {
  run_role = λ agent task r w. (said (if ltb w 2 then "{s}\n---\nwhy" else "{o}"), suc w);
}

ruled_waits : (run_adversarial_phase ruled_contest "Which?" contested 0).0.0 ≡ needs_arbitration
unfolding run_adversarial_phase contest_with resume_contest lint_record frontmatter frontmatter_of
    sections sections_from positions_meta metas_from add_meta bullet arb_meta arb_from add_arb
    report_lint lint_errors status_errors earned meta_errors is_complete_arb splitlines
    after_positions position_round position_of parse_stance stance_in stance_of objects_from
    objection_rounds objection_round answer_of parse_objection_response objections_in objections_of
    assemble_contest decide_contest converged assemble_record head_lines position_lines
    objection_lines fence_prose record_objections position_task objection_task
ruled_waits = refl
