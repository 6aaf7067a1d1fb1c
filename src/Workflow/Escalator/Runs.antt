-- ===== src/Workflow/Escalator/Runs.antt =====
-- What a phase with a cascade policy comes to, over any number of escalations.
use harnessie.Prelude.{
  ◌∷◌, [], List, names_of, ◌≡◌, ◌≢◌, refl, ap, ◌∙◌, String, Option, none, some, true, get_elem?,
  mem, Result, ok, raise, Bool-cases, inl, inr, subst, str_eq,
}
use harnessie.Routing.{Route, Router, effort_levels}
use harnessie.Cascade.{CascadePolicy, post_init, CascadeError}
use harnessie.Cascade.Config.{CascadeConfig, policy, validate_against_tiers}
use harnessie.Prelude.Values.{Value}
use harnessie.Cascade.Load.{Conversion, load_cascade_config}
use harnessie.Cascade.Loaded.{load_cascade_config-checked}
use harnessie.Verify.{Verdict}
use harnessie.Workflow.Escalator.{
  no_ladder, Dollars, Spec, Purse, Escalations, escalation_raised, EscalationError, opted_in,
  resolve_cascade, first_rung, resolve_policy, cascade_escalate,
}
use harnessie.Workflow.Escalator.Standing.{
  Stands, Admitted, Escalating, first-Stands, run-Stands, named-Admitted,
}
use harnessie.Workflow.Escalator.Quiet.{cascade_escalate-ne-raise}

module _ (dollars : Dollars) (router : Router (Spec dollars)) (p : CascadePolicy) where
  -- A phase that opted in to a policy of the configuration that was loaded from its file and that the
  -- startup check has passed, with a routed effort.
  pub record OptedIn (conversion : Conversion) (file : Option Value) (config : CascadeConfig)
      (name : String) (routed first : Route) : Type 0 where
    pub valid : validate_against_tiers config (names_of router.tiers) ≡ ok tt
    pub loaded : load_cascade_config conversion file ≡ ok config
    pub resolved : resolve_cascade config (some name) routed ≡ opted_in p first
    pub effort_known : mem routed.effort effort_levels ≡ true

  abbrev FirstRung : Route → CascadePolicy → Route → Type 0
  FirstRung routed q first =
      (get_elem? q.ladder 0 ≡ some first.tier) × (first.effort ≡ routed.effort) × (first.alt ≡ 0)

  first_rung-opted_in :
      (routed first : Route) (q : CascadePolicy) (o : Option String)
      → get_elem? q.ladder 0 ≡ o
      → first_rung q routed o ≡ opted_in p first
      → (q ≡ p) × FirstRung routed q first
  first_rung-opted_in routed first q none at h = absurd (cc)
  first_rung-opted_in routed first q (some tier) at h = (cc, (cc, cc, cc))

  resolve_policy-opted_in :
      (routed first : Route) (found : Result CascadeError CascadePolicy)
      → resolve_policy routed found ≡ opted_in p first
      → (found ≡ ok p) × FirstRung routed p first
  resolve_policy-opted_in routed first (raise e) h = absurd (cc)
  resolve_policy-opted_in routed first (ok q) h =
      let (e, at) = first_rung-opted_in routed first q _ refl h in
      (ap ok e, subst (λ x. FirstRung routed x first) e at)

  resolve_cascade-opted_in :
      (config : CascadeConfig) (name : String) (routed first : Route)
      → resolve_cascade config (some name) routed ≡ opted_in p first
      → (policy config name ≡ ok p) × FirstRung routed p first
  unfolding resolve_cascade
  resolve_cascade-opted_in config name routed first h = elim (Bool-cases (str_eq name "")) [
    | inl e ↦ absurd (cc (rw e at h))
    | inr e ↦ resolve_policy-opted_in routed first _ (rw e at h)
  ]

  admitted :
      (conversion : Conversion) (file : Option Value) (config : CascadeConfig) (name : String)
      (routed first : Route)
      → OptedIn conversion file config name routed first
      → Admitted dollars router p × Stands dollars router p 0 first
  admitted conversion file config name routed first o =
      let (named, (at, effort, primary)) =
        resolve_cascade-opted_in config name routed first o.resolved in
      let checked = load_cascade_config-checked conversion file config name p o.loaded named in
      let a = named-Admitted dollars router p config name o.valid named checked in
      (
        a,
        first-Stands dollars router p first a at
            (ap (λ e. mem e effort_levels) effort ∙ o.effort_known) primary,
      )

  -- After any number of escalations of a phase that opted in, each with any verdict and any budget, the
  -- route stands exactly as many rungs up the ladder as there were climbs, which are no more than the
  -- policy's ceiling, with a known effort and a configured model; and the next escalation does not raise.
  pub Escalating-Stands :
      (conversion : Conversion) (file : Option Value) (config : CascadeConfig) (name : String)
      (routed first route : Route) (s : Escalations dollars.Amount) (v : Verdict)
      (b : Purse dollars) (x : EscalationError)
      → OptedIn conversion file config name routed first
      → Escalating dollars router p first route s
      → Stands dollars router p s.used route
        × (cascade_escalate dollars router p route v b s ≢ escalation_raised x)
  Escalating-Stands conversion file config name routed first route s v b x o run =
      let (a, start) = admitted conversion file config name routed first o in
      let at = run-Stands dollars router p first route s a start run in
      (at, cascade_escalate-ne-raise dollars router p route v b s x a at)

post_init-has_ladder : (q : CascadePolicy) → post_init q ≡ ok tt → q.ladder ≢ []
unfolding post_init
post_init-has_ladder q checked e = cc (rw e at checked)

first_rung-ne-no_ladder :
    (routed : Route) (q : CascadePolicy) (ladder : List String)
    → ladder ≢ []
    → first_rung q routed (get_elem? ladder 0) ≢ no_ladder
first_rung-ne-no_ladder routed q [] some_rung h = some_rung refl
first_rung-ne-no_ladder routed q (tier ∷ tiers) some_rung h = cc

resolve_policy-ne-no_ladder :
    (routed : Route) (found : Result CascadeError CascadePolicy)
    → ((q : CascadePolicy) → found ≡ ok q → post_init q ≡ ok tt)
    → resolve_policy routed found ≢ no_ladder
resolve_policy-ne-no_ladder routed (raise e) checked h = cc
resolve_policy-ne-no_ladder routed (ok q) checked h =
    first_rung-ne-no_ladder routed q q.ladder (post_init-has_ladder q (checked q refl)) h

-- A phase of the configuration that was loaded from its file never meets an empty ladder: the subscript of
-- `_resolve_cascade` is in range, whatever policy the phase names, and where it names none.
pub resolve_cascade-ne-no_ladder :
    (conversion : Conversion) (file : Option Value) (config : CascadeConfig) (name : Option String)
    (routed : Route)
    → load_cascade_config conversion file ≡ ok config
    → resolve_cascade config name routed ≢ no_ladder
unfolding resolve_cascade
resolve_cascade-ne-no_ladder conversion file config none routed loaded h = cc
resolve_cascade-ne-no_ladder conversion file config (some name) routed loaded h =
    elim (Bool-cases (str_eq name "")) [
      | inl e ↦ cc (rw e at h)
      | inr e ↦
          resolve_policy-ne-no_ladder routed (policy config name)
            (λ q found. load_cascade_config-checked conversion file config name q loaded found)
            (rw e at h)
    ]
