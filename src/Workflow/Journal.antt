-- ===== src/Workflow/Journal.antt =====
-- The run's journal of harness/state.py, as the phase loop of harness/runner.py uses it.
use harnessie.Prelude.{
  ◌≡◌, ◌≢◌, refl, sym, ap, ◌∙◌, String, ◌<>◌, Option, none, some, Bool, true, false, str_eq, lookup,
  if◌then◌else◌, lookup-insert, eq_iff, Bool-cases, inl, inr,
}
use text.Mathlib.TextLemmas.{append_cancel_left}
use harnessie.Prelude.Values.{Value, str, obj, end, field, get}
use harnessie.Events.{Wire}
use harnessie.State.{RunState, result, record_step}
use harnessie.Workflow.Phases.{StepResult, Journal}

abbrev encode : StepResult → Value
encode r = obj (field "status" (str r.status) (field "report" (str r.report) end))

abbrev or_empty : Option Value → String
or_empty (some (str s)) = s
or_empty _ = ""

-- What the loop reads of a recorded result: `get("status")` and `get("report", "")` of an object.
abbrev decode : Option Value → Option StepResult
decode (some (obj d)) =
    some (record { status = or_empty (get "status" d); report = or_empty (get "report" d) })
decode _ = none

abbrev step_key : String → String
step_key name = "phase:" <> name

true-ne-false : true ≢ false
true-ne-false h = cc

pub step_key-eq : (a b : String) → str_eq (step_key a) (step_key b) ≡ str_eq a b
step_key-eq a b = elim (Bool-cases (str_eq a b)) [
  | inl e ↦ (eq_iff (step_key a) (step_key b)).1 (ap step_key ((eq_iff a b).0 e)) ∙ sym e
  | inr e ↦ elim (Bool-cases (str_eq (step_key a) (step_key b))) [
    | inl f ↦ absurd (
        true-ne-false (
          sym (
            (eq_iff a b).1
              (append_cancel_left "phase:" a b ((eq_iff (step_key a) (step_key b)).0 f)))
          ∙ e))
    | inr f ↦ f ∙ sym e
  ]
]

pub decode-if :
    (b : Bool) (v : Value) (o : Option Value)
    → decode (if b then some v else o) ≡ (if b then decode (some v) else decode o)
decode-if true v o = refl
decode-if false v o = refl

-- `ts` is the clock's reading.
abbrev pub journal_of : Wire → String → Journal RunState
unfolding result record_step
journal_of wire ts = record {
  prior = λ j name. decode (result j (step_key name));
  journal_record = λ name r j. record_step wire ts (step_key name) (encode r) j;
  prior-journal_record = λ j name other r.
      ap decode (lookup-insert (step_key name) (step_key other) (encode r) j.completed)
      ∙ decode-if (str_eq (step_key name) (step_key other)) (encode r)
          (lookup (step_key other) j.completed)
      ∙ ap (λ b. if b then some r else decode (lookup (step_key other) j.completed))
          (step_key-eq name other);
}
