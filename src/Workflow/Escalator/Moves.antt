-- ===== src/Workflow/Escalator/Moves.antt =====
-- The four moves of the cascade escalator of harness/runner.py.
use harnessie.Prelude.{
  ℕ, suc, ◌+◌, ◌-◌, ◌≡◌, refl, String, Option, none, some, Bool, true, false, ltb, length,
  get_elem?, mem, Result, ok, raise, Bool-cases, inl, inr, subst,
}
use harnessie.Routing.{Route, Router, RoutingError, index_error, effort_levels, alts_of, spec_for}
use harnessie.Cascade.{
  CascadePolicy, CascadeError, ClimbDecision, climb, hold, exhausted, Why, next_tier,
}
use harnessie.Verify.{Verdict}
use harnessie.Workflow.Escalator.{
  Dollars, Spec, Purse, Escalations, Escalated, to_route, sideways_reasons, escalation_reason,
  climb_cost_estimate, remaining, rung, admit_climb, climb_onto, follow, raise_effort,
  escalate_effort, without_fallback, move_sideways, escalate_for, cascade_escalate,
}

module _ (dollars : Dollars) (router : Router (Spec dollars)) (p : CascadePolicy) where
  -- One move of the escalator from a route with `used` climbs, to a route with as many or one more.
  pub data Move (route : Route) (reason : String) (b : Purse dollars) (used : ℕ)
      : Route → ℕ → Type 0 where
    sideways :
        (spec : Spec dollars)
        → get_elem? (alts_of router route.tier) route.alt ≡ some spec
        → Move route reason b used (record route { alt = suc route.alt }) used
    more_effort :
        (e_idx : ℕ) (effort : String)
        → get_elem? effort_levels e_idx ≡ some effort
        → Move route reason b used (record route { effort = effort }) used
    held : Move route reason b used route used
    climbed :
        (tier : String) (why : Why) (spec : Spec dollars)
        → next_tier p route.tier used reason ≡ ok (climb tier why)
        → spec_for router (rung dollars tier) ≡ ok spec
        → dollars.gt (climb_cost_estimate dollars spec) (remaining dollars b) ≡ false
        → Move route reason b used (rung dollars tier) (suc used)

  abbrev Moved : Route → String → Purse dollars → ℕ → Escalated dollars.Amount → Type 0
  Moved route reason b used (to_route r s) = Move route reason b used r s.used
  Moved route reason b used _ = Unit

  record Moves (route : Route) (reason : String) (b : Purse dollars) (used : ℕ)
      (e : Escalated dollars.Amount) : Type 0 where
    moved : Moved route reason b used e

  module _ (route : Route) (reason : String) (b : Purse dollars)
      (s : Escalations dollars.Amount) where
    climb_onto-Moves :
        (tier : String) (why : Why) (r : Result RoutingError (Spec dollars))
        → next_tier p route.tier s.used reason ≡ ok (climb tier why)
        → spec_for router (rung dollars tier) ≡ r
        → Moves route reason b s.used (climb_onto dollars router p tier why r b s)
    unfolding climb_onto admit_climb
    climb_onto-Moves tier why (raise e) up found = record { moved = tt }
    climb_onto-Moves tier why (ok spec) up found =
        elim (Bool-cases (dollars.gt (climb_cost_estimate dollars spec) (remaining dollars b))) [
          | inl over ↦ rw over (record { moved = tt })
          | inr fits ↦ rw fits (record { moved = climbed tier why spec up found fits })
        ]

    follow-Moves :
        (d : Result CascadeError ClimbDecision)
        → next_tier p route.tier s.used reason ≡ d
        → Moves route reason b s.used (follow dollars router p route d b s)
    unfolding follow
    follow-Moves (raise e) h = record { moved = tt }
    follow-Moves (ok (climb tier why)) h = climb_onto-Moves tier why _ h refl
    follow-Moves (ok (hold why)) h = record { moved = held }
    follow-Moves (ok (exhausted why)) h = record { moved = tt }

    raise_effort-Moves :
        (e_idx : ℕ) (o : Option String)
        → get_elem? effort_levels e_idx ≡ o
        → Moves route reason b s.used (
            raise_effort dollars router p route
              (elim o [ none ↦ raise index_error | some x ↦ ok x ])
              s)
    unfolding raise_effort
    raise_effort-Moves e_idx none found = record { moved = tt }
    raise_effort-Moves e_idx (some effort) found = record { moved = more_effort e_idx effort found }

    escalate_effort-Moves :
        (o : Option ℕ)
        → Moves route reason b s.used (escalate_effort dollars router p route reason o b s)
    unfolding escalate_effort
    escalate_effort-Moves none = record { moved = tt }
    escalate_effort-Moves (some e_idx) = elim (Bool-cases (ltb e_idx (length effort_levels - 1))) [
      | inl below ↦ rw below (raise_effort-Moves (e_idx + 1) _ refl)
      | inr top ↦ rw top (follow-Moves _ refl)
    ]

    without_fallback-Moves :
        (out : Bool)
        → Moves route reason b s.used (without_fallback dollars router p out route reason b s)
    unfolding without_fallback
    without_fallback-Moves true = record { moved = held }
    without_fallback-Moves false = escalate_effort-Moves _

    move_sideways-Moves :
        (o : Option (Spec dollars))
        → get_elem? (alts_of router route.tier) route.alt ≡ o
        → Moves route reason b s.used (move_sideways dollars router p o route reason b s)
    unfolding move_sideways
    move_sideways-Moves (some spec) found = record { moved = sideways spec found }
    move_sideways-Moves none found = without_fallback-Moves _

    escalate_for-Moves :
        Moves route reason b s.used (escalate_for dollars router p reason route b s)
    unfolding escalate_for
    escalate_for-Moves = elim (Bool-cases (mem reason sideways_reasons)) [
      | inl e ↦ rw e (move_sideways-Moves _ refl)
      | inr e ↦ rw e (escalate_effort-Moves _)
    ]

  pub cascade_escalate-Move :
      (route r : Route) (v : Verdict) (b : Purse dollars) (s t : Escalations dollars.Amount)
      → cascade_escalate dollars router p route v b s ≡ to_route r t
      → Move route (escalation_reason v.reasons) b s.used r t.used
  unfolding cascade_escalate
  cascade_escalate-Move route r v b s t h =
      (subst (Moves route (escalation_reason v.reasons) b s.used) h
        (escalate_for-Moves route (escalation_reason v.reasons) b s)).moved
