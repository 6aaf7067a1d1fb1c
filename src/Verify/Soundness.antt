-- ===== src/Verify/Soundness.antt =====
-- What a gate's answer means.
use harnessie.Prelude.{
  ℕ, zero, suc, ◌+◌, ◌≤◌, ◌≡◌, refl, String, Option, none, some, List, [], ◌∷◌, ◌++◌, Bool, true,
  false, length, length-append, Result, ok, raise, arith,
}
use harnessie.Routing.{Route}
use harnessie.Loop.{
  LoopResult, Stop, complete, declined, max_steps, budget, stuck, model_error, no_action, refusal,
  secret_egress, blast_radius,
}
use harnessie.Verify.Defs.{CheckResult, Verdict, run_checks}
use harnessie.Verify.Run.{
  RouteError, Gate, GateState, GateProgress, next_attempt, ladder_exhausted, gate_returned,
  gate_raised, passed, needs_human, first_terminal, failed_checks, add_verdict, after_decline,
  run_harness_checks, ask_verifier, judge, take_route, prepare, conclude, record_verdict,
  after_checks, check_work, after_work, one_attempt, give_up, then_attempt, attempts_from, run_gate,
}

module _ {W : Type 0} (gate : Gate W) where
  -- The last attempt behind a pass: the worker ran to `task_complete` with this report, no check
  -- breached a ceiling, no check failed, and the verifier, where there is one, passed the report.
  pub record Earned (report : String) : Type 0 where
    pub task : String
    pub route : Route
    pub attempt : ℕ
    pub world : W
    pub worker_complete : (gate.attempt_fn task route world).0.stop ≡ complete
    pub reported : (gate.attempt_fn task route world).0.report ≡ report
    pub no_breach :
        first_terminal
          (run_checks gate.check_world gate.checks attempt (gate.attempt_fn task route world).1).0
        ≡ none
    pub checks_passed :
        failed_checks (
          (run_checks gate.check_world gate.checks attempt (gate.attempt_fn task route world).1).0
          ++ (run_harness_checks gate gate.harness_checks attempt
              (run_checks gate.check_world gate.checks attempt
                (gate.attempt_fn task route world).1).1).0)
        ≡ []
    pub verified :
        (ask_verifier gate gate.verify_fn report
          (run_harness_checks gate gate.harness_checks attempt
            (run_checks gate.check_world gate.checks attempt
              (gate.attempt_fn task route world).1).1).1).0.passed
        ≡ true

  -- What holds when the attempt with number `n` is over.
  abbrev AfterAttempt : ℕ → GateProgress W → Type 0
  AfterAttempt n (next_attempt s) = length s.verdicts ≡ n
  AfterAttempt n (ladder_exhausted s) = length s.verdicts ≡ n
  AfterAttempt n (gate_returned r s) =
      (r.attempts ≡ length r.verdicts)
      × (r.attempts ≡ n)
      × (r.status ≡ passed → Earned r.final_report)
  AfterAttempt n (gate_raised e s) = Unit

  record Attempted (n : ℕ) (out : GateProgress W) : Type 0 where
    holds : AfterAttempt n out

  -- The gate has returned, or an escalation raised; what it returned counts its verdicts and its
  -- attempts, and a pass is earned.
  abbrev pub Answers : GateProgress W → Type 0
  Answers (next_attempt s) = ⊥
  Answers (ladder_exhausted s) = ⊥
  Answers (gate_returned r s) =
      (r.attempts ≡ length r.verdicts)
      × (r.attempts ≤ gate.max_attempts)
      × (r.status ≡ passed → Earned r.final_report)
  Answers (gate_raised e s) = Unit

  record Answered (out : GateProgress W) : Type 0 where
    pub holds : Answers out

  not_passed : {A : Type 0} → needs_human ≡ passed → A
  not_passed h = cc

  add_verdict-length :
      (n : ℕ) (v : Verdict) (s : GateState W)
      → length s.verdicts + 1 ≡ n
      → length (add_verdict gate n v s).verdicts ≡ n
  add_verdict-length n v s h = omega (arith, h, length-append s.verdicts (v ∷ []))

  judge-passed :
      (failed : List CheckResult) (report : String) (w : W)
      → (judge gate failed report w).0.passed ≡ true
      → (failed ≡ []) × ((ask_verifier gate gate.verify_fn report w).0.passed ≡ true)
  unfolding judge
  judge-passed [] report w h = (refl, h)
  judge-passed (c ∷ failed) report w h = cc

  take_route-Attempted :
      (n : ℕ) (r : Result RouteError (Option Route)) (s : GateState W)
      → length s.verdicts ≡ n
      → Attempted n (take_route gate r s)
  unfolding take_route
  take_route-Attempted n (raise e) s h = record { holds = tt }
  take_route-Attempted n (ok none) s h = record { holds = h }
  take_route-Attempted n (ok (some route)) s h = record { holds = h }

  prepare-Attempted :
      (n : ℕ) (v : Verdict) (b : Bool) (s : GateState W)
      → length s.verdicts ≡ n
      → Attempted n (prepare gate v b s)
  unfolding prepare
  prepare-Attempted n v true s h = take_route-Attempted n _ _ h
  prepare-Attempted n v false s h = record { holds = h }

  conclude-Attempted :
      (n : ℕ) (v : Verdict) (report : String) (b : Bool) (s : GateState W)
      → length s.verdicts ≡ n
      → (b ≡ true → Earned report)
      → Attempted n (conclude gate n v report b s)
  unfolding conclude
  conclude-Attempted n v report true s h earned = record {
    holds = (omega (arith, h), refl, λ _. earned refl);
  }
  conclude-Attempted n v report false s h earned = prepare-Attempted n v _ _ h

  after_checks-Attempted :
      (n : ℕ) (report : String) (results : List CheckResult) (found : Option CheckResult)
      (s : GateState W)
      → length s.verdicts + 1 ≡ n
      → (found ≡ none
          → failed_checks (results ++ (run_harness_checks gate gate.harness_checks n s.world).0)
            ≡ []
          → (ask_verifier gate gate.verify_fn report
              (run_harness_checks gate gate.harness_checks n s.world).1).0.passed
            ≡ true
          → Earned report)
      → Attempted n (after_checks gate n report results found s)
  unfolding after_checks record_verdict
  after_checks-Attempted n report results (some t) s h earned = record {
    holds = (omega (arith, add_verdict-length n _ s h), refl, λ e. not_passed e);
  }
  after_checks-Attempted n report results none s h earned =
      conclude-Attempted n _ report _ _ (add_verdict-length n _ s h)
        (λ e. let (empty, approved) = judge-passed _ report _ e in earned refl empty approved)

  after_decline-Attempted :
      (n : ℕ) (work : LoopResult) (b : Bool) (s : GateState W)
      → length s.verdicts ≡ n
      → Attempted n (after_decline gate work b s)
  unfolding after_decline
  after_decline-Attempted n work true s h = record { holds = h }
  after_decline-Attempted n work false s h = record { holds = (refl, h, λ e. not_passed e) }

  stopped-Attempted :
      (n : ℕ) (v : Verdict) (report : String) (s : GateState W)
      → length s.verdicts + 1 ≡ n
      → v.passed ≡ false
      → Attempted n (record_verdict gate n v report s)
  unfolding record_verdict
  stopped-Attempted n v report s h e =
      conclude-Attempted n v report v.passed _ (add_verdict-length n v s h) (λ t. cc)

  after_work-Attempted :
      (n : ℕ) (work : LoopResult) (stop : Stop) (s : GateState W)
      → length s.verdicts + 1 ≡ n
      → (stop ≡ complete → Attempted n (check_work gate n work.report s))
      → Attempted n (after_work gate n work stop s)
  unfolding after_work
  after_work-Attempted n work declined s h k =
      after_decline-Attempted n work _ _ (add_verdict-length n _ s h)
  after_work-Attempted n work blast_radius s h k = record {
    holds = (omega (arith, add_verdict-length n _ s h), refl, λ e. not_passed e);
  }
  after_work-Attempted n work complete s h k = k refl
  after_work-Attempted n work max_steps s h k = stopped-Attempted n _ _ s h refl
  after_work-Attempted n work budget s h k = stopped-Attempted n _ _ s h refl
  after_work-Attempted n work stuck s h k = stopped-Attempted n _ _ s h refl
  after_work-Attempted n work model_error s h k = stopped-Attempted n _ _ s h refl
  after_work-Attempted n work no_action s h k = stopped-Attempted n _ _ s h refl
  after_work-Attempted n work refusal s h k = stopped-Attempted n _ _ s h refl
  after_work-Attempted n work secret_egress s h k = stopped-Attempted n _ _ s h refl

  one_attempt-Attempted :
      (n : ℕ) (s : GateState W) → length s.verdicts + 1 ≡ n → Attempted n (one_attempt gate n s)
  unfolding one_attempt check_work
  one_attempt-Attempted n s h = after_work-Attempted n _ _ _ h (λ e.
      after_checks-Attempted n _ _ _ _ h (λ no_breach checks_passed verified. record {
        task = s.current_task;
        route = s.current_route;
        attempt = n;
        world = s.world;
        worker_complete = e;
        reported = refl;
        no_breach = no_breach;
        checks_passed = checks_passed;
        verified = verified;
      }))

  give_up-Answered :
      (s : GateState W) → length s.verdicts ≤ gate.max_attempts → Answered (give_up gate s)
  unfolding give_up
  give_up-Answered s h = record { holds = (refl, h, λ e. not_passed e) }

  then_attempt-Answered :
      (f : GateState W → GateProgress W) (n : ℕ) (out : GateProgress W)
      → n ≤ gate.max_attempts
      → ((s : GateState W) → length s.verdicts ≡ n → Answered (f s))
      → Attempted n out
      → Answered (then_attempt gate f out)
  then_attempt-Answered f n (next_attempt s) m g h = g s h.holds
  then_attempt-Answered f n (ladder_exhausted s) m g h =
      give_up-Answered s (omega (arith, m, h.holds))
  then_attempt-Answered f n (gate_returned r s) m g h = record {
    holds = (h.holds.0, omega (arith, m, h.holds.1), h.holds.2);
  }
  then_attempt-Answered f n (gate_raised e s) m g h = record { holds = tt }

  attempts_from-Answered :
      (left attempt : ℕ) (s : GateState W)
      → length s.verdicts + 1 ≡ attempt
      → left + attempt ≡ gate.max_attempts + 1
      → Answered (attempts_from gate left attempt s)
  unfolding attempts_from
  attempts_from-Answered zero attempt s h m = give_up-Answered s (omega (arith, h, m))
  attempts_from-Answered (suc left) attempt s h m =
      then_attempt-Answered _ attempt (one_attempt gate attempt s) (omega (arith, m))
        (λ t e. attempts_from-Answered left (attempt + 1) t (omega (arith, e)) (omega (arith, m)))
        (one_attempt-Attempted attempt s h)

  -- A gate ends: it returns, or an escalation raised. What it returns counts one verdict for each
  -- attempt and at most `max_attempts` attempts; and `passed` is returned only for an attempt whose
  -- worker completed, none of whose checks breached a ceiling or failed, and whose report the verifier
  -- passed, where one is configured.
  pub run_gate-Answers : (route : Route) (w : W) → Answers (run_gate gate route w)
  unfolding run_gate
  run_gate-Answers route w = (attempts_from-Answered gate.max_attempts 1 _ refl refl).holds
