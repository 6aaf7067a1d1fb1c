-- ===== src/Verify/Run.antt =====
-- `VerificationGate.run` of harness/verify.py.
use harnessie.Prelude.{
  ℕ, zero, suc, ◌+◌, String, ◌<>◌, Option, none, some, List, [], ◌∷◌, ◌++◌, Bool, true, false, not,
  ◌&&◌, if◌then◌else◌, keep, leb, str_eq, clip, length, Result, ok, raise,
}
use harnessie.Routing.{Route, RoutingError, escalate}
use harnessie.Loop.{
  LoopResult, no_detail, decline, Stop, complete, declined, max_steps, budget, stuck, model_error,
  no_action, refusal, secret_egress, blast_radius, is_complete,
}
use harnessie.Verify.Defs.{Check, CheckResult, Verdict, verdict, CheckWorld, run_checks}
use harnessie.Verify.Verdicts.{Reading, parse_verdict}

abbrev pub show_stop : Stop → String
show_stop complete = "complete"
show_stop declined = "declined"
show_stop max_steps = "max_steps"
show_stop budget = "budget"
show_stop stuck = "stuck"
show_stop model_error = "model_error"
show_stop no_action = "no_action"
show_stop refusal = "refusal"
show_stop secret_egress = "secret_egress"
show_stop blast_radius = "blast_radius"

abbrev pub is_declined : Stop → Bool
is_declined declined = true
is_declined _ = false

abbrev pub is_breach : Stop → Bool
is_breach blast_radius = true
is_breach _ = false

pub data Status : Type 0 where
  passed needs_human : Status

pub record GateResult : Type 0 where
  pub status : Status
  pub attempts : ℕ
  pub final_report : String
  pub verdicts : List Verdict

-- The event `gate_verdict`, without the flag `terminal`.
pub record GateVerdict : Type 0 where
  pub attempt : ℕ
  pub passed : Bool
  pub source : String
  pub route : Route

-- The arguments of the gate. `escalate_fn` is `Route.escalate` where no policy is given. A worker or a
-- verifier runs a loop; a harness check is a function of the attempt, and its proof and its event are
-- written by `record_check`. `show_index` prints a number.
pub record Gate (W : Type 0) : Type 0 where
  pub max_attempts : ℕ
  pub task : String
  pub attempt_fn : String → Route → W → LoopResult × W
  pub verify_fn : Option (String → W → LoopResult × W)
  pub checks : List Check
  pub harness_checks : List (ℕ → W → CheckResult × W)
  pub escalate_fn : Option (Route → Verdict → W → Result String (Option Route) × W)
  pub check_world : CheckWorld W
  pub reading : Reading

-- The variables of `run`.
pub record GateState (W : Type 0) : Type 0 where
  pub verdicts : List Verdict
  pub current_task : String
  pub current_route : Route
  pub counter_used : Bool
  pub events : List GateVerdict
  pub world : W

-- An exception on the way to the next route, of `Route.escalate` or of `escalate_fn`.
pub data RouteError : Type 0 where
  by_ladder : RoutingError → RouteError
  by_escalation : String → RouteError

-- An attempt is followed by another, or the gate has returned, or an escalation raised.
pub data GateProgress (W : Type 0) : Type 0 where
  next_attempt : GateState W → GateProgress W
  ladder_exhausted : GateState W → GateProgress W
  gate_returned : GateResult → GateState W → GateProgress W
  gate_raised : RouteError → GateState W → GateProgress W

-- `str(work.detail.get("reason", work.report))`
abbrev pub decline_reason : LoopResult → String
decline_reason work = elim work.detail [ decline reason _ ↦ reason | no_detail ↦ work.report ]

abbrev pub counter_proposal : LoopResult → String
counter_proposal work = elim work.detail [ decline _ counter ↦ counter | no_detail ↦ "" ]

abbrev pub last_reasons : List Verdict → String
last_reasons [] = "(no verdicts)"
last_reasons (v ∷ []) = clip 800 v.reasons
last_reasons (_ ∷ v ∷ vs) = last_reasons (v ∷ vs)

abbrev pub first_terminal : List CheckResult → Option CheckResult
first_terminal [] = none
first_terminal (r ∷ rs) = let later = first_terminal rs in if r.terminal then some r else later

abbrev pub failed_checks : List CheckResult → List CheckResult
failed_checks = keep (λ c. not c.passed)

abbrev check_line : CheckResult → String
check_line c = "[" <> (c.name <> ("] " <> clip 800 c.output))

abbrev lines : List CheckResult → String
lines [] = ""
lines (c ∷ []) = check_line c
lines (c ∷ cs) = check_line c <> ("\n" <> lines cs)

module _ {W : Type 0} (gate : Gate W) where
  abbrev pub add_verdict : ℕ → Verdict → GateState W → GateState W
  add_verdict attempt v s = record s {
    verdicts = s.verdicts ++ v ∷ [];
    events =
        s.events
        ++ (record {
          attempt = attempt;
          passed = v.passed;
          source = v.source;
          route = s.current_route;
        })
          ∷ [];
  }

  abbrev needs_operator : ℕ → String → GateState W → GateProgress W
  needs_operator attempts report s =
      gate_returned
        (record {
          status = needs_human;
          attempts = attempts;
          final_report = report;
          verdicts = s.verdicts;
        })
        s

  abbrev re_offer : String → String → String
  re_offer reason counter =
      gate.task
      <> ("\n\n## Re-offer after decline\nThe previously assigned agent declined this task: "
          <> (reason
              <> ("\nIts counter-proposal:\n"
                  <> (counter
                      <> ("\n\nThe task is re-offered incorporating that counter-proposal. "
                          <> ("Accept it only if you judge it achievable as specified; "
                              <> "declining again hands the decision to the operator."))))))

  -- A decline: one re-offer on a counter-proposal, else the operator.
  unfoldable pub after_decline : LoopResult → Bool → GateState W → GateProgress W
  after_decline work true s = next_attempt (record s {
    counter_used = true;
    current_task = re_offer (decline_reason work) (counter_proposal work);
  })
  after_decline work false s =
      needs_operator (length s.verdicts) ("task declined by agent: " <> decline_reason work) s

  -- The harness' own checks, in order.
  unfoldable pub run_harness_checks : List (ℕ → W → CheckResult × W) → ℕ → W → List CheckResult × W
  run_harness_checks [] attempt w = ([], w)
  run_harness_checks (hc ∷ hcs) attempt w =
      let (result, w') = hc attempt w in
      let rest =
        run_harness_checks hcs attempt
          (gate.check_world.record_check "(harness check)" result attempt w') in
      (result ∷ rest.0, rest.1)

  -- The verifier's verdict, where there is a verifier.
  unfoldable pub ask_verifier : Option (String → W → LoopResult × W) → String → W → Verdict × W
  ask_verifier none report w = (verdict true "checks passed; no verifier configured" "checks", w)
  ask_verifier (some verify_fn) report w =
      let (vres, w') = verify_fn report w in
      (
        if is_complete vres.stop
            then parse_verdict gate.reading vres.report
            else verdict false ("verifier loop stopped: " <> show_stop vres.stop) "gate",
        w',
      )

  -- The verdict on an attempt whose checks did not breach a ceiling.
  unfoldable pub judge : List CheckResult → String → W → Verdict × W
  judge [] report w = ask_verifier gate.verify_fn report w
  judge (c ∷ failed) report w =
      (verdict false ("deterministic checks failed:\n" <> lines (c ∷ failed)) "checks", w)

  abbrev reformulated : ℕ → Verdict → String
  reformulated attempt v =
      gate.task
      <> ("\n\n## Previous attempt "
          <> (gate.reading.show_index attempt
              <> (" FAILED\n"
                  <> (clip 3000 v.reasons
                      <> ("\n\nDo not repeat the failed approach. Address every failure above, "
                          <> "then re-run the relevant checks yourself before calling task_complete.")))))

  abbrev on_ladder : Result RoutingError (Option Route) → Result RouteError (Option Route)
  on_ladder (ok next) = ok next
  on_ladder (raise e) = raise (by_ladder e)

  abbrev by_function : Result String (Option Route) → Result RouteError (Option Route)
  by_function (ok next) = ok next
  by_function (raise e) = raise (by_escalation e)

  unfoldable pub next_route :
      Option (Route → Verdict → W → Result String (Option Route) × W)
      → Verdict
      → Route
      → W
      → Result RouteError (Option Route) × W
  next_route none v route w = (on_ladder (escalate route), w)
  next_route (some escalate_fn) v route w =
      let (next, w') = escalate_fn route v w in (by_function next, w')

  -- The route of the next attempt.
  unfoldable pub take_route : Result RouteError (Option Route) → GateState W → GateProgress W
  take_route (raise e) s = gate_raised e s
  take_route (ok none) s = ladder_exhausted s
  take_route (ok (some route)) s = next_attempt (record s { current_route = route })

  -- From the third attempt on the route is escalated; the flag tells whether `attempt >= 2`.
  unfoldable pub prepare : Verdict → Bool → GateState W → GateProgress W
  prepare v true s =
      let (next, w) = next_route gate.escalate_fn v s.current_route s.world in
      take_route next (record s { world = w })
  prepare v false s = next_attempt s

  -- A verdict that is recorded: the gate passes, or the next attempt is prepared.
  unfoldable pub conclude : ℕ → Verdict → String → Bool → GateState W → GateProgress W
  conclude attempt v report true s =
      gate_returned
        (record {
          status = passed;
          attempts = attempt;
          final_report = report;
          verdicts = s.verdicts;
        })
        s
  conclude attempt v report false s =
      prepare v (leb 2 attempt) (record s { current_task = reformulated attempt v })

  unfoldable pub record_verdict : ℕ → Verdict → String → GateState W → GateProgress W
  record_verdict attempt v report s = conclude attempt v report v.passed (add_verdict attempt v s)

  -- What follows the checks: a breached ceiling ends the gate.
  unfoldable pub after_checks :
      ℕ → String → List CheckResult → Option CheckResult → GateState W → GateProgress W
  after_checks attempt report results (some terminal) s = needs_operator attempt terminal.output (
      add_verdict attempt (verdict false ("blast radius exceeded: " <> terminal.output) "checks") s)
  after_checks attempt report results none s =
      let (own, w) = run_harness_checks gate.harness_checks attempt s.world in
      let (v, w') = judge (failed_checks (results ++ own)) report w in
      record_verdict attempt v report (record s { world = w' })

  unfoldable pub check_work : ℕ → String → GateState W → GateProgress W
  check_work attempt report s =
      let (results, w) = run_checks gate.check_world gate.checks attempt s.world in
      after_checks attempt report results (first_terminal results) (record s { world = w })

  -- What the gate does with the worker's run, by how it stopped.
  unfoldable pub after_work : ℕ → LoopResult → Stop → GateState W → GateProgress W
  after_work attempt work declined s =
      after_decline work (not (str_eq (counter_proposal work) "") && not s.counter_used) (
        add_verdict attempt (verdict false ("consent declined: " <> decline_reason work) "consent")
          s)
  after_work attempt work blast_radius s =
      needs_operator attempt work.report
        (add_verdict attempt (verdict false ("blast radius exceeded: " <> work.report) "gate") s)
  after_work attempt work complete s = check_work attempt work.report s
  after_work attempt work stop s =
      record_verdict attempt
        (verdict false
          ("worker loop stopped: " <> (show_stop stop <> (": " <> clip 500 work.report))) "gate")
        work.report s

  unfoldable pub one_attempt : ℕ → GateState W → GateProgress W
  one_attempt attempt s =
      let (work, w) = gate.attempt_fn s.current_task s.current_route s.world in
      after_work attempt work work.stop (record s { world = w })

  -- What the gate returns behind its loop.
  unfoldable pub give_up : GateState W → GateProgress W
  give_up s =
      needs_operator (length s.verdicts)
        ("verification failed after escalation ladder; "
          <> ("operator review required. Last verdict: " <> last_reasons s.verdicts))
        s

  abbrev pub then_attempt : (GateState W → GateProgress W) → GateProgress W → GateProgress W
  then_attempt f (next_attempt s) = f s
  then_attempt f (ladder_exhausted s) = give_up s
  then_attempt f (gate_returned r s) = gate_returned r s
  then_attempt f (gate_raised e s) = gate_raised e s

  -- The attempts that are left.
  unfoldable pub attempts_from : ℕ → ℕ → GateState W → GateProgress W
  attempts_from zero attempt s = give_up s
  attempts_from (suc left) attempt s =
      then_attempt (λ t. attempts_from left (attempt + 1) t) (one_attempt attempt s)

  abbrev pub start : Route → W → GateState W
  start route w = record {
    verdicts = [];
    current_task = gate.task;
    current_route = route;
    counter_used = false;
    events = [];
    world = w;
  }

  -- `VerificationGate.run`
  unfoldable pub run_gate : Route → W → GateProgress W
  run_gate route w = attempts_from gate.max_attempts 1 (start route w)
