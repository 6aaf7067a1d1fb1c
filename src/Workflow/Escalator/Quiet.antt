-- ===== src/Workflow/Escalator/Quiet.antt =====
-- The exceptions of an escalation, in harness/runner.py.
use harnessie.Prelude.{
  ◌≢◌, ℕ, ◌+◌, ◌-◌, ◌≡◌, refl, String, Option, none, some, Bool, true, false, ltb, length,
  get_elem?, index, mem, Result, ok, raise, Bool-cases, inl, inr, subst, arith, mem_of_get_elem?,
  get_elem?-index, get_elem?-lt, mem-index,
}
use harnessie.Routing.{Route, Router, RoutingError, effort_levels, subscript, spec_for}
use harnessie.Routing.Specs.{spec_for-primary}
use harnessie.Cascade.{
  CascadePolicy, CascadeError, ClimbDecision, climb, hold, exhausted, Why, next_tier,
}
use harnessie.Cascade.Climbs.{next_tier-IsClimb, next_tier_raises}
use harnessie.Verify.{Verdict}
use harnessie.Workflow.Escalator.{
  Dollars, Spec, Purse, Escalations, Escalated, escalation_raised, EscalationError,
  sideways_reasons, escalation_reason, climb_cost_estimate, remaining, rung, admit_climb,
  climb_onto, follow, raise_effort, escalate_effort, without_fallback, move_sideways, escalate_for,
  cascade_escalate,
}
use harnessie.Workflow.Escalator.Standing.{Stands, Admitted, rung_model}

module _ (dollars : Dollars) (router : Router (Spec dollars)) (p : CascadePolicy) where
  abbrev pub NoRaise : Escalated dollars.Amount → Type 0
  NoRaise (escalation_raised e) = ⊥
  NoRaise _ = Unit

  pub record Quiet (e : Escalated dollars.Amount) : Type 0 where
    pub quiet : NoRaise e

  module _ (route : Route) (reason : String) (b : Purse dollars) (s : Escalations dollars.Amount)
      (a : Admitted dollars router p) (at : Stands dollars router p s.used route) where
    climb_onto-Quiet :
        (tier : String) (why : Why) (r : Result RoutingError (Spec dollars))
        → (spec : Spec dollars) × (r ≡ ok spec)
        → Quiet (climb_onto dollars router p tier why r b s)
    unfolding climb_onto admit_climb
    climb_onto-Quiet tier why (raise e) (spec, found) = absurd (cc)
    climb_onto-Quiet tier why (ok spec) _ =
        elim (Bool-cases (dollars.gt (climb_cost_estimate dollars spec) (remaining dollars b))) [
          | inl over ↦ rw over (record { quiet = tt })
          | inr fits ↦ rw fits (record { quiet = tt })
        ]

    climbed_model :
        (tier : String) (why : Why)
        → next_tier p route.tier s.used reason ≡ ok (climb tier why)
        → (spec : Spec dollars) × (spec_for router (rung dollars tier) ≡ ok spec)
    climbed_model tier why h =
        let is = next_tier-IsClimb p route.tier s.used reason tier why a.checked h in
        let (spec, found) =
          rung_model dollars router p tier a
            (mem_of_get_elem? tier p.ladder _ (get_elem?-index tier p.ladder _ is.next_rung)) in
        (spec, spec_for-primary router (rung dollars tier) spec refl found)

    on_ladder : mem route.tier p.ladder ≡ true
    on_ladder =
        mem_of_get_elem? route.tier p.ladder _ (get_elem?-index route.tier p.ladder _ at.on_rung)

    follow-Quiet :
        (d : Result CascadeError ClimbDecision)
        → next_tier p route.tier s.used reason ≡ d
        → Quiet (follow dollars router p route d b s)
    unfolding follow
    follow-Quiet (raise e) h =
        absurd (cc (on_ladder, (next_tier_raises p route.tier s.used reason e h).0))
    follow-Quiet (ok (climb tier why)) h = climb_onto-Quiet tier why _ (climbed_model tier why h)
    follow-Quiet (ok (hold why)) h = record { quiet = tt }
    follow-Quiet (ok (exhausted why)) h = record { quiet = tt }

    raise_effort-Quiet :
        (e_idx : ℕ)
        → (effort : String) × (get_elem? effort_levels e_idx ≡ some effort)
        → Quiet (raise_effort dollars router p route (subscript effort_levels e_idx) s)
    unfolding raise_effort
    raise_effort-Quiet e_idx (effort, found) = rw found (record { quiet = tt })

    escalate_effort-Quiet :
        Quiet (escalate_effort dollars router p route reason (index route.effort effort_levels) b s)
    unfolding escalate_effort
    escalate_effort-Quiet =
        let (e_idx, found) = mem-index route.effort effort_levels at.effort_known in
        rw found (elim (Bool-cases (ltb e_idx (length effort_levels - 1))) [
          | inl below ↦ rw below (
              raise_effort-Quiet (e_idx + 1)
                (get_elem?-lt effort_levels (e_idx + 1) (ground arith)))
          | inr top ↦ rw top (follow-Quiet _ refl)
        ])

    without_fallback-Quiet :
        (out : Bool) → Quiet (without_fallback dollars router p out route reason b s)
    unfolding without_fallback
    without_fallback-Quiet true = record { quiet = tt }
    without_fallback-Quiet false = escalate_effort-Quiet

    move_sideways-Quiet :
        (o : Option (Spec dollars)) → Quiet (move_sideways dollars router p o route reason b s)
    unfolding move_sideways
    move_sideways-Quiet (some spec) = record { quiet = tt }
    move_sideways-Quiet none = without_fallback-Quiet _

    escalate_for-Quiet : Quiet (escalate_for dollars router p reason route b s)
    unfolding escalate_for
    escalate_for-Quiet = elim (Bool-cases (mem reason sideways_reasons)) [
      | inl e ↦ rw e (move_sideways-Quiet _)
      | inr e ↦ rw e escalate_effort-Quiet
    ]

  pub no_raise :
      (e : Escalated dollars.Amount) (x : EscalationError) → Quiet e → e ≢ escalation_raised x
  no_raise e x q h = (subst Quiet h q).quiet

  pub cascade_escalate-ne-raise :
      (route : Route) (v : Verdict) (b : Purse dollars) (s : Escalations dollars.Amount)
      (x : EscalationError)
      → Admitted dollars router p
      → Stands dollars router p s.used route
      → cascade_escalate dollars router p route v b s ≢ escalation_raised x
  unfolding cascade_escalate
  cascade_escalate-ne-raise route v b s x a at =
      no_raise _ x (escalate_for-Quiet route (escalation_reason v.reasons) b s a at)
