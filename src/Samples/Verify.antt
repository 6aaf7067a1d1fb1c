-- ===== src/Samples/Verify.antt =====
-- A gate with one check and a verifier, and a verdict on two claims.
use harnessie.Prelude.{
  zero, suc, ◌≤◌, ℕ, ◌+◌, ◌≡◌, refl, String, none, some, [], ◌∷◌, Bool, true, false, pos,
}
use harnessie.Prelude.Values.{Value, str, boolean, seq_of, obj, done, element, Fields, end, field}
use harnessie.Routing.{Route}
use harnessie.Loop.{LoopResult, Stop, complete, declined, decline}
use harnessie.Verify.{
  is_declined, completed, Reading, Gate, GateState, GateProgress, next_attempt, one_attempt,
  after_work, after_decline, run_gate, parse_claims, parsed_claims, needed, and_then, parse_each,
  parse_claim, refused_if, parse_rest, known_status, or_boolean, or_text, evidence_of,
  overall_status,
}
use harnessie.Verify.Claims.{PassedClaims, parse_claims-PassedClaims}
use harnessie.Verify.Soundness.{Answers, run_gate-Answers}
use harnessie.Verify.Decline.{Attempts, at_start, one_attempt-re_offers_once}

abbrev reading : Reading
reading = record {
  raw_decode = λ s. some (obj (field "passed" (boolean true) end), 1);
  repr = λ v. "value";
  show = λ v. "value";
  show_index = λ n. "n";
  strip = λ s. s;
  lower = λ s. s;
}

abbrev claim_value : String → String → Bool → Value
claim_value id status required =
    obj
      (field "id" (str id) (field "status" (str status) (field "required" (boolean required) end)))

abbrev claims : Fields
claims =
    field "claims"
      (seq_of (
        element (claim_value "a" "reproduced" true)
          (element (claim_value "b" "refuted" false) done)))
      end

claims_pass : (parse_claims reading claims).passed ≡ true
unfolding parse_claims parsed_claims needed and_then parse_each parse_claim refused_if parse_rest
    known_status or_boolean or_text evidence_of overall_status
claims_pass = refl

parse_claims-PassedClaims_example : PassedClaims reading (parse_claims reading claims)
parse_claims-PassedClaims_example = parse_claims-PassedClaims reading claims claims_pass

abbrev loop_result : Stop → LoopResult
loop_result stop = record {
  stop = stop;
  report = "{";
  steps = 1;
  transcript = [];
  detail = decline "too wide" "split it";
}

-- The world counts the runs of checks; `stop` is how the worker stops.
abbrev gate : Stop → Gate ℕ
gate stop = record {
  max_attempts = 3;
  task = "task";
  attempt_fn = λ task route w. (loop_result stop, w);
  verify_fn = some (λ report w. (loop_result complete, w));
  checks = (record { name = "tests"; command = "pytest"; timeout = 600 }) ∷ [];
  harness_checks = [];
  escalate_fn = none;
  check_world = record {
    apply_check = λ check w. (completed (pos 0) "ok", w + 1);
    record_check = λ head result attempt w. w;
    strip = λ s. s;
    contains = λ s t. false;
  };
  reading = reading;
}

abbrev low_route : Route
low_route = record { tier = "local"; effort = "low"; alt = 0 }

run_gate-Answers_example : Answers (gate complete) (run_gate (gate complete) low_route 0)
run_gate-Answers_example = run_gate-Answers (gate complete) low_route 0

abbrev before : GateState ℕ
before = record {
  verdicts = [];
  current_task = "task";
  current_route = low_route;
  counter_used = false;
  events = [];
  world = 0;
}

abbrev state_after : GateProgress ℕ → GateState ℕ
state_after (next_attempt s) = s
state_after _ = before

re_offered :
    one_attempt (gate declined) 1 before
    ≡ next_attempt (state_after (one_attempt (gate declined) 1 before))
unfolding one_attempt after_work after_decline
re_offered = refl

one_attempt-re_offers_once_example :
    (1 ≤ 1)
    × ((t : GateState ℕ)
        → is_declined declined ≡ true
        → one_attempt (gate declined) 2 (state_after (one_attempt (gate declined) 1 before))
          ≡ next_attempt t
        → (suc zero ≡ 0) × (t.current_route ≡ low_route))
unfolding one_attempt after_work after_decline
one_attempt-re_offers_once_example =
    one_attempt-re_offers_once (gate declined) 2 1
      (state_after (one_attempt (gate declined) 1 before))
      (Attempts.re_offered 1 0 before (state_after (one_attempt (gate declined) 1 before))
        (at_start low_route 0) refl re_offered)
