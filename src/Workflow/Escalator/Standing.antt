-- ===== src/Workflow/Escalator/Standing.antt =====
-- What holds of a phase's route after any number of escalations under a checked policy.
use harnessie.Prelude.{
  [], ℕ, ◌≤◌, ◌≡◌, refl, String, some, true, get_elem?, index, mem, ok, arith, outside,
  index-get_elem?, mem_of_get_elem?, mem_of_outside, names_of, lookup-mem, lookup,
}
use harnessie.Routing.{Route, Router, effort_levels, spec_for}
use harnessie.Routing.Specs.{spec_for-primary, spec_for-fallback}
use harnessie.Cascade.{CascadePolicy, climb_ceiling, post_init}
use harnessie.Cascade.Climbs.{post_init-IsValid, next_tier-IsClimb}
use harnessie.Cascade.Config.{CascadeConfig, policy, validate_against_tiers, policy-configured}
use harnessie.Verify.{Verdict}
use harnessie.Workflow.Escalator.{Dollars, Spec, Purse, Escalations, to_route, cascade_escalate}
use harnessie.Workflow.Escalator.Moves.{
  Move, sideways, more_effort, held, climbed, cascade_escalate-Move,
}

module _ (dollars : Dollars) (router : Router (Spec dollars)) (p : CascadePolicy) where
  -- The route stands as many rungs up as there were climbs, no more than the policy's ceiling, with a known
  -- effort and a configured model.
  pub record Stands (used : ℕ) (route : Route) : Type 0 where
    pub on_rung : index route.tier p.ladder ≡ some used
    pub within : used ≤ climb_ceiling p
    pub effort_known : mem route.effort effort_levels ≡ true
    pub model : (spec : Spec dollars) × (spec_for router route ≡ ok spec)

  -- What the startup checks guarantee of the policy.
  pub record Admitted : Type 0 where
    pub checked : post_init p ≡ ok tt
    pub configured : outside (names_of router.tiers) p.ladder ≡ []

  pub rung_model :
      (tier : String)
      → Admitted
      → mem tier p.ladder ≡ true
      → (spec : Spec dollars) × (lookup tier router.tiers ≡ some spec)
  rung_model tier a m = lookup-mem tier router.tiers (mem_of_outside _ p.ladder tier a.configured m)

  Move-Stands :
      (route r : Route) (reason : String) (b : Purse dollars) (used n : ℕ)
      → Admitted
      → Stands used route
      → Move dollars router p route reason b used r n
      → Stands n r
  unfolding spec_for
  Move-Stands route r reason b used n a s (sideways spec found) = record {
    on_rung = s.on_rung;
    within = s.within;
    effort_known = s.effort_known;
    model = (spec, spec_for-fallback router route spec found);
  }
  Move-Stands route r reason b used n a s (more_effort e_idx effort found) = record {
    on_rung = s.on_rung;
    within = s.within;
    effort_known = mem_of_get_elem? effort effort_levels e_idx found;
    model = s.model;
  }
  Move-Stands route r reason b used n a s held = s
  Move-Stands route r reason b used n a s (climbed tier why spec up found fits) =
      let is = next_tier-IsClimb p route.tier used reason tier why a.checked up in
      record {
        on_rung = ground (arith, is.stands, is.next_rung, s.on_rung);
        within = is.below_ceiling;
        effort_known = refl;
        model = (spec, found);
      }

  -- The phase's first route, and any number of escalations from it, each with any verdict and any budget.
  pub data Escalating (first : Route) : Route → Escalations dollars.Amount → Type 0 where
    opened : Escalating first first (record { used = 0; events = [] })
    escalated :
        {route r : Route} {s t : Escalations dollars.Amount} (v : Verdict) (b : Purse dollars)
        → Escalating first route s
        → cascade_escalate dollars router p route v b s ≡ to_route r t
        → Escalating first r t

  pub first-Stands :
      (first : Route)
      → Admitted
      → get_elem? p.ladder 0 ≡ some first.tier
      → mem first.effort effort_levels ≡ true
      → first.alt ≡ 0
      → Stands 0 first
  first-Stands first a at known primary = record {
    on_rung = index-get_elem? first.tier p.ladder 0 (post_init-IsValid p a.checked).no_repeat at;
    within = omega arith;
    effort_known = known;
    model =
        let (spec, found) = rung_model first.tier a (mem_of_get_elem? first.tier p.ladder 0 at) in
        (spec, spec_for-primary router first spec primary found);
  }

  pub run-Stands :
      (first route : Route) (s : Escalations dollars.Amount)
      → Admitted
      → Stands 0 first
      → Escalating first route s
      → Stands s.used route
  run-Stands first route s a at opened = at
  run-Stands first route s a at (escalated {route = q} {s = before} v b run h) =
      Move-Stands q route _ b before.used s.used a (run-Stands first q before a at run)
        (cascade_escalate-Move dollars router p q route v b before s h)

  -- The policy of a named cascade, after the checks at startup.
  pub named-Admitted :
      (config : CascadeConfig) (name : String)
      → validate_against_tiers config (names_of router.tiers) ≡ ok tt
      → policy config name ≡ ok p
      → post_init p ≡ ok tt
      → Admitted
  named-Admitted config name valid named checked = record {
    checked = checked;
    configured = policy-configured config _ name p valid named;
  }
