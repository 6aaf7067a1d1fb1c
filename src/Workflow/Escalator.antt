-- ===== src/Workflow/Escalator.antt =====
-- The escalation of a phase with a cascade policy: `_resolve_cascade` and the closure that
-- `_cascade_escalator` makes, in harness/runner.py.
-- `Amount` is the type of dollar amounts, Python floats, with the operations that the code uses.
pub mod Moves
pub mod Standing
pub mod Quiet
pub mod Runs
use harnessie.Prelude.{
  ℕ, suc, ◌+◌, ◌-◌, ◌≡◌, String, Option, none, some, List, [], ◌∷◌, ◌++◌, Bool, true, false, ltb,
  if◌then◌else◌, length, get_elem?, index, mem, str_eq, is_part, Result, ok, raise,
}
use harnessie.Routing.{
  Route, Router, RoutingError, value_error, index_error, effort_levels, subscript, alts_of,
  spec_for,
}
use harnessie.Cascade.{
  CascadePolicy, CascadeError, ClimbDecision, climb, hold, exhausted, Why, next_tier,
}
use harnessie.Cascade.Config.{CascadeConfig, policy, is_reserved}
use harnessie.Verify.{Verdict}

-- harness/cascade.py
abbrev pub sideways_reasons : List String
sideways_reasons = "refusal" ∷ "availability" ∷ []

-- `_escalation_reason`, of the verdict's `reasons`.
unfoldable pub escalation_reason : String → String
escalation_reason reasons =
    if is_part "loop stopped: refusal" reasons
    then "refusal"
    else if is_part "loop stopped: model_error" reasons
    then "availability"
    else "gate_fail"

-- `gt a b` is `a > b`, and `scale n a` is `n * a / 1_000_000`.
pub record Dollars : Type 1 where
  pub Amount : Type 0
  pub plus : Amount → Amount → Amount
  pub minus : Amount → Amount → Amount
  pub scale : ℕ → Amount → Amount
  pub gt : Amount → Amount → Bool

-- The fields of a model spec that the escalation reads.
pub record ModelSpec (Amount : Type 0) : Type 0 where
  pub model_id : String
  pub max_tokens : ℕ
  pub cost_per_mtok_in : Amount
  pub cost_per_mtok_out : Amount

-- Why a decision was made, by the event's message.
pub data DecisionReason (Amount : Type 0) : Type 0 where
  moves_sideways : String → String → ℕ → ℕ → DecisionReason Amount
  no_fallback_left : DecisionReason Amount
  needs_budget : Amount → Amount → DecisionReason Amount
  by_policy : Why → DecisionReason Amount

-- The event `cascade_decision`, without its phase and policy, which are those of the closure.
pub record CascadeDecision (Amount : Type 0) : Type 0 where
  pub action : String
  pub tier : Option String
  pub reason : DecisionReason Amount

-- What the closure changes: the climbs used, and the event log.
pub record Escalations (Amount : Type 0) : Type 0 where
  pub used : ℕ
  pub events : List (CascadeDecision Amount)

pub data EscalationError : Type 0 where
  by_routing : RoutingError → EscalationError
  by_cascade : CascadeError → EscalationError

-- What an escalation comes to: another route, `None`, or an exception.
pub data Escalated (Amount : Type 0) : Type 0 where
  to_route : Route → Escalations Amount → Escalated Amount
  to_operator : Escalations Amount → Escalated Amount
  escalation_raised : EscalationError → Escalated Amount

-- What `_resolve_cascade` comes to: the plain route, the first rung of a policy with the policy that its
-- escalator follows, the refusal of an unknown policy, or the IndexError of an empty ladder.
pub data Resolved : Type 0 where
  plain : Route → Resolved
  opted_in : CascadePolicy → Route → Resolved
  refused : CascadeError → Resolved
  no_ladder : Resolved

abbrev first_rung : CascadePolicy → Route → Option String → Resolved
first_rung p r none = no_ladder
first_rung p r (some tier) = opted_in p (record { tier = tier; effort = r.effort; alt = 0 })

abbrev resolve_policy : Route → Result CascadeError CascadePolicy → Resolved
resolve_policy r (raise e) = refused e
resolve_policy r (ok p) = first_rung p r (get_elem? p.ladder 0)

-- `_resolve_cascade`; an empty name is no name.
unfoldable pub resolve_cascade : CascadeConfig → Option String → Route → Resolved
resolve_cascade config none r = plain r
resolve_cascade config (some name) r =
    if str_eq name "" then plain r else resolve_policy r (policy config name)

module _ (dollars : Dollars) where
  open dollars use {Amount, plus, minus, scale, gt}

  abbrev pub Spec : Type 0
  Spec = ModelSpec Amount

  -- `_climb_cost_estimate`
  unfoldable pub climb_cost_estimate : Spec → Amount
  climb_cost_estimate spec =
      scale spec.max_tokens (plus spec.cost_per_mtok_in spec.cost_per_mtok_out)

  -- The two fields of the run's budget that are read at a climb.
  pub record Purse : Type 0 where
    pub max_usd : Amount
    pub spent_usd : Amount

  abbrev pub remaining : Purse → Amount
  remaining b = minus b.max_usd b.spent_usd

  abbrev pub decided :
      String → Option String → DecisionReason Amount → Escalations Amount → Escalations Amount
  decided action tier reason s = record s {
    events = s.events ++ (record { action = action; tier = tier; reason = reason }) ∷ [];
  }

  -- `Route(tier, "medium")`
  abbrev pub rung : String → Route
  rung tier = record { tier = tier; effort = "medium"; alt = 0 }

  module _ (router : Router Spec) (p : CascadePolicy) where
    -- A climb whose worst first turn the budget still covers.
    unfoldable pub admit_climb :
        Bool → String → Why → Amount → Amount → Escalations Amount → Escalated Amount
    admit_climb true tier why estimate left s =
        to_operator (decided "refused_headroom" (some tier) (needs_budget estimate left) s)
    admit_climb false tier why estimate left s =
        to_route (rung tier)
          (record (decided "climb" (some tier) (by_policy why) s) { used = suc s.used })

    unfoldable pub climb_onto :
        String → Why → Result RoutingError Spec → Purse → Escalations Amount → Escalated Amount
    climb_onto tier why (raise e) b s = escalation_raised (by_routing e)
    climb_onto tier why (ok spec) b s =
        admit_climb (gt (climb_cost_estimate spec) (remaining b)) tier why
          (climb_cost_estimate spec) (remaining b) s

    -- What follows the policy's decision.
    unfoldable pub follow :
        Route → Result CascadeError ClimbDecision → Purse → Escalations Amount → Escalated Amount
    follow route (raise e) b s = escalation_raised (by_cascade e)
    follow route (ok (climb tier why)) b s = climb_onto tier why (spec_for router (rung tier)) b s
    follow route (ok (hold why)) b s = to_route route (decided "hold" none (by_policy why) s)
    follow route (ok (exhausted why)) b s = to_operator (decided "exhausted" none (by_policy why) s)

    unfoldable pub raise_effort :
        Route → Result RoutingError String → Escalations Amount → Escalated Amount
    raise_effort route (raise e) s = escalation_raised (by_routing e)
    raise_effort route (ok effort) s = to_route (record route { effort = effort }) s

    -- With `EFFORT_LEVELS.index(route.effort)` given: more effort on the tier, or the policy decides.
    unfoldable pub escalate_effort :
        Route → String → Option ℕ → Purse → Escalations Amount → Escalated Amount
    escalate_effort route reason none b s =
        escalation_raised (by_routing (value_error route.effort))
    escalate_effort route reason (some e_idx) b s =
        if ltb e_idx (length effort_levels - 1)
        then raise_effort route (subscript effort_levels (e_idx + 1)) s
        else follow route (next_tier p route.tier s.used reason) b s

    -- With every fallback spent, a refusal goes on and an outage holds.
    unfoldable pub without_fallback :
        Bool → Route → String → Purse → Escalations Amount → Escalated Amount
    without_fallback true route reason b s =
        to_route route (decided "hold" (some route.tier) no_fallback_left s)
    without_fallback false route reason b s =
        escalate_effort route reason (index route.effort effort_levels) b s

    -- With `alts[route.alt]` given, `none` past the end.
    unfoldable pub move_sideways :
        Option Spec → Route → String → Purse → Escalations Amount → Escalated Amount
    move_sideways (some spec) route reason b s =
        to_route (record route { alt = suc route.alt })
          (decided "sideways" (some route.tier)
            (moves_sideways reason spec.model_id (route.alt + 1)
              (length (alts_of router route.tier)))
            s)
    move_sideways none route reason b s =
        without_fallback (str_eq reason "availability") route reason b s

    unfoldable pub escalate_for : String → Route → Purse → Escalations Amount → Escalated Amount
    escalate_for reason route b s =
        if mem reason sideways_reasons
        then move_sideways (get_elem? (alts_of router route.tier) route.alt) route reason b s
        else escalate_effort route reason (index route.effort effort_levels) b s

    -- The closure `escalate`.
    unfoldable pub cascade_escalate :
        Route → Verdict → Purse → Escalations Amount → Escalated Amount
    cascade_escalate route v b s = escalate_for (escalation_reason v.reasons) route b s
