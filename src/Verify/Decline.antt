-- ===== src/Verify/Decline.antt =====
-- How often the gate re-offers a task that the worker declined, in harness/verify.py.
use harnessie.Prelude.{
  ℕ, ◌+◌, suc, ◌≤◌, ◌≡◌, refl, sym, ap, ◌∙◌, String, Option, none, some, List, Bool, true, false,
  if◌then◌else◌, Result, ok, raise, arith,
}
use harnessie.Routing.{Route}
use harnessie.Loop.{
  LoopResult, Stop, complete, declined, max_steps, budget, stuck, model_error, no_action, refusal,
  secret_egress, blast_radius,
}
use harnessie.Verify.Defs.{CheckResult, Verdict}
use harnessie.Verify.Run.{
  Gate, GateState, GateProgress, RouteError, next_attempt, ladder_exhausted, gate_returned,
  gate_raised, is_declined, after_decline, take_route, prepare, conclude, record_verdict,
  after_checks, check_work, after_work, one_attempt, start,
}

module _ {W : Type 0} (gate : Gate W) where
  -- The attempts of a run of the gate up to this state: the number of the next attempt, and how many
  -- declined attempts were followed by another.
  pub data Attempts : ℕ → GateState W → ℕ → Type 0 where
    at_start : (route : Route) (w : W) → Attempts 1 (start gate route w) 0
    re_offered :
        (n k : ℕ) (s t : GateState W)
        → Attempts n s k
        → is_declined (gate.attempt_fn s.current_task s.current_route s.world).0.stop ≡ true
        → one_attempt gate n s ≡ next_attempt t
        → Attempts (n + 1) t (suc k)
    tried_again :
        (n k : ℕ) (s t : GateState W)
        → Attempts n s k
        → is_declined (gate.attempt_fn s.current_task s.current_route s.world).0.stop ≡ false
        → one_attempt gate n s ≡ next_attempt t
        → Attempts (n + 1) t k

  -- A next attempt has the flag `b` for the counter-proposal.
  abbrev Flags : Bool → GateProgress W → Type 0
  Flags b (next_attempt t) = t.counter_used ≡ b
  Flags b _ = Unit

  record Flagged (b : Bool) (out : GateProgress W) : Type 0 where
    holds : Flags b out

  abbrev route_of : GateProgress W → Route
  route_of (next_attempt t) = t.current_route
  route_of (ladder_exhausted t) = t.current_route
  route_of (gate_returned r t) = t.current_route
  route_of (gate_raised e t) = t.current_route

  abbrev used_of : GateProgress W → Bool
  used_of (next_attempt t) = t.counter_used
  used_of (ladder_exhausted t) = t.counter_used
  used_of (gate_returned r t) = t.counter_used
  used_of (gate_raised e t) = t.counter_used

  flag_of :
      (b : Bool) (out : GateProgress W) (t : GateState W)
      → Flagged b out
      → out ≡ next_attempt t
      → t.counter_used ≡ b
  flag_of b (next_attempt u) t f h = ap used_of (sym h) ∙ f.holds
  flag_of b (ladder_exhausted u) t f h = absurd (cc)
  flag_of b (gate_returned r u) t f h = absurd (cc)
  flag_of b (gate_raised e u) t f h = absurd (cc)

  take_route-Flagged :
      (r : Result RouteError (Option Route)) (s : GateState W)
      → Flagged s.counter_used (take_route gate r s)
  unfolding take_route
  take_route-Flagged (raise e) s = record { holds = tt }
  take_route-Flagged (ok none) s = record { holds = tt }
  take_route-Flagged (ok (some route)) s = record { holds = refl }

  prepare-Flagged :
      (v : Verdict) (b : Bool) (s : GateState W) → Flagged s.counter_used (prepare gate v b s)
  unfolding prepare
  prepare-Flagged v true s = take_route-Flagged _ _
  prepare-Flagged v false s = record { holds = refl }

  conclude-Flagged :
      (n : ℕ) (v : Verdict) (report : String) (passed : Bool) (s : GateState W)
      → Flagged s.counter_used (conclude gate n v report passed s)
  unfolding conclude
  conclude-Flagged n v report true s = record { holds = tt }
  conclude-Flagged n v report false s = prepare-Flagged v _ _

  after_checks-Flagged :
      (n : ℕ) (report : String) (results : List CheckResult) (found : Option CheckResult)
      (s : GateState W)
      → Flagged s.counter_used (after_checks gate n report results found s)
  unfolding after_checks record_verdict
  after_checks-Flagged n report results (some t) s = record { holds = tt }
  after_checks-Flagged n report results none s = conclude-Flagged n _ report _ _

  after_work-Flagged :
      (n : ℕ) (work : LoopResult) (stop : Stop) (s : GateState W)
      → is_declined stop ≡ false
      → Flagged s.counter_used (after_work gate n work stop s)
  unfolding after_work check_work record_verdict
  after_work-Flagged n work declined s h = absurd (cc)
  after_work-Flagged n work blast_radius s h = record { holds = tt }
  after_work-Flagged n work complete s h = after_checks-Flagged n _ _ _ _
  after_work-Flagged n work max_steps s h = conclude-Flagged n _ _ _ _
  after_work-Flagged n work budget s h = conclude-Flagged n _ _ _ _
  after_work-Flagged n work stuck s h = conclude-Flagged n _ _ _ _
  after_work-Flagged n work model_error s h = conclude-Flagged n _ _ _ _
  after_work-Flagged n work no_action s h = conclude-Flagged n _ _ _ _
  after_work-Flagged n work refusal s h = conclude-Flagged n _ _ _ _
  after_work-Flagged n work secret_egress s h = conclude-Flagged n _ _ _ _

  after_decline-next :
      (work : LoopResult) (b : Bool) (s t : GateState W)
      → after_decline gate work b s ≡ next_attempt t
      → (b ≡ true) × (t.current_route ≡ s.current_route) × (t.counter_used ≡ true)
  unfolding after_decline
  after_decline-next work true s t h = (refl, sym (ap route_of h), sym (ap used_of h))
  after_decline-next work false s t h = absurd (cc)

  declined_work-next :
      (n : ℕ) (work : LoopResult) (stop : Stop) (s t : GateState W)
      → is_declined stop ≡ true
      → after_work gate n work stop s ≡ next_attempt t
      → (s.counter_used ≡ false) × (t.current_route ≡ s.current_route) × (t.counter_used ≡ true)
  unfolding after_work
  declined_work-next n work declined s t d h =
      let (b, route, used) = after_decline-next work _ _ t h in (ground (arith, b), route, used)
  declined_work-next n work blast_radius s t d h = absurd (cc)
  declined_work-next n work complete s t d h = absurd (cc)
  declined_work-next n work max_steps s t d h = absurd (cc)
  declined_work-next n work budget s t d h = absurd (cc)
  declined_work-next n work stuck s t d h = absurd (cc)
  declined_work-next n work model_error s t d h = absurd (cc)
  declined_work-next n work no_action s t d h = absurd (cc)
  declined_work-next n work refusal s t d h = absurd (cc)
  declined_work-next n work secret_egress s t d h = absurd (cc)

  one_attempt-declined :
      (n : ℕ) (s t : GateState W)
      → is_declined (gate.attempt_fn s.current_task s.current_route s.world).0.stop ≡ true
      → one_attempt gate n s ≡ next_attempt t
      → (s.counter_used ≡ false) × (t.current_route ≡ s.current_route) × (t.counter_used ≡ true)
  unfolding one_attempt
  one_attempt-declined n s t d h = declined_work-next n _ _ _ t d h

  one_attempt-other :
      (n : ℕ) (s t : GateState W)
      → is_declined (gate.attempt_fn s.current_task s.current_route s.world).0.stop ≡ false
      → one_attempt gate n s ≡ next_attempt t
      → t.counter_used ≡ s.counter_used
  unfolding one_attempt
  one_attempt-other n s t d h = flag_of _ _ t (after_work-Flagged n _ _ _ d) h

  -- The flag counts the re-offers.
  abbrev count_used : Bool → ℕ
  count_used b = if b then 1 else 0

  Attempts-count : (n k : ℕ) (s : GateState W) → Attempts n s k → k ≡ count_used s.counter_used
  Attempts-count n k s (at_start route w) = refl
  Attempts-count n k s (re_offered m j r t run d h) =
      let (unused, route, used) = one_attempt-declined m r s d h in
      let before = Attempts-count m j r run in rw used (ap suc (rw unused at before))
  Attempts-count n k s (tried_again m j r t run d h) =
      Attempts-count m k r run ∙ ap count_used (sym (one_attempt-other m r s d h))

  count_used-bound : (b : Bool) → count_used b ≤ 1
  count_used-bound true = omega arith
  count_used-bound false = omega arith

  -- Over all attempts of a run of the gate, a declined task is re-offered at most once; a declined attempt
  -- is followed by another only where none was before, and on the same route: a decline is never
  -- answered with a bigger model.
  pub one_attempt-re_offers_once :
      (n k : ℕ) (s : GateState W)
      → Attempts n s k
      → (k ≤ 1)
        × ((t : GateState W)
            → is_declined (gate.attempt_fn s.current_task s.current_route s.world).0.stop ≡ true
            → one_attempt gate n s ≡ next_attempt t
            → (k ≡ 0) × (t.current_route ≡ s.current_route))
  one_attempt-re_offers_once n k s run =
      let counted = Attempts-count n k s run in
      let bound = count_used-bound s.counter_used in
      (
        omega (arith, counted, bound),
        λ t d h.
            let (unused, route, used) = one_attempt-declined n s t d h in
            (rw unused at counted, route),
      )
