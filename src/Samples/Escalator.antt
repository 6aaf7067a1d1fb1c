-- ===== src/Samples/Escalator.antt =====
-- A phase that climbs from a local model to a sovereign one; dollars are numbers here.
use harnessie.Prelude.{
  none, Option, ℕ, ◌-◌, ◌*◌, ◌+◌, ◌≡◌, ◌≢◌, refl, some, [], ◌∷◌, true, false, ltb, negsuc,
}
use harnessie.Routing.{Route, Router, value_error, spec_for}
use harnessie.Cascade.{CascadePolicy, post_init, next_tier, escalates}
use harnessie.Cascade.Config.{CascadeConfig, validate_against_tiers, policy}
use harnessie.Prelude.Values.{Value, obj, seq_of, boolean, done, field, end}
use harnessie.Cascade.Load.{
  Conversion, load_cascade_config, load_reserved, load_policies, load_policy, policy_of_body,
  policy_from,
}
use harnessie.Verify.{Verdict, verdict}
use harnessie.Workflow.Escalator.{
  no_ladder, Dollars, Spec, Purse, Escalations, to_route, by_routing, by_policy, moves_sideways,
  resolve_cascade, escalation_raised, cascade_escalate, escalate_for, escalate_effort,
  escalation_reason, follow, climb_onto, admit_climb, climb_cost_estimate, move_sideways,
}
use harnessie.Workflow.Escalator.Standing.{Stands, opened, escalated}
use harnessie.Workflow.Escalator.Runs.{resolve_cascade-ne-no_ladder, OptedIn, Escalating-Stands}

abbrev cents : Dollars
cents = record {
  Amount = ℕ;
  plus = λ a b. a + b;
  minus = λ a b. a - b;
  scale = λ n a. n * a;
  gt = λ a b. ltb b a;
}

abbrev small_model : Spec cents
small_model = record {
  model_id = "small";
  max_tokens = 2;
  cost_per_mtok_in = 0;
  cost_per_mtok_out = 0;
}

abbrev large_model : Spec cents
large_model = record {
  model_id = "large";
  max_tokens = 2;
  cost_per_mtok_in = 1;
  cost_per_mtok_out = 3;
}

abbrev plain_route : Route
plain_route = record { tier = "local"; effort = "max"; alt = 0 }

abbrev brains_router : Router (Spec cents)
brains_router = record {
  tiers = ("local", small_model) ∷ ("sovereign", large_model) ∷ [];
  table = [];
  default = plain_route;
  fallbacks = ("local", small_model ∷ []) ∷ [];
}

abbrev home_policy : CascadePolicy
home_policy = record {
  name = "home";
  ladder = "local" ∷ "sovereign" ∷ [];
  escalate_on = "gate_fail" ∷ [];
  max_climb = negsuc 0;
  on_exhaust = "defer";
  data_classes = [];
  contained = true;
}

abbrev home_config : CascadeConfig
home_config = record { policies = ("home", home_policy) ∷ []; reserved = [] }

abbrev home_conversion : Conversion
home_conversion = record {
  to_text = λ v. "";
  truthy = λ v. true;
  to_int = λ v. none;
  to_texts = λ v. some ("local" ∷ "sovereign" ∷ []);
}

abbrev home_file : Option Value
home_file = some (
    obj (
      field "policies"
        (obj (
          field "home" (obj (field "ladder" (seq_of done) (field "contained" (boolean true) end)))
            end))
        end))

abbrev purse : Purse cents
purse = record { max_usd = 10; spent_usd = 2 }

abbrev at_first : Escalations ℕ
at_first = record { used = 0; events = [] }

abbrev failing : Verdict
failing = verdict false "2 tests failed" "checks"

abbrev refusing : Verdict
refusing = verdict false "worker loop stopped: refusal: no" "gate"

abbrev climbed_state : Escalations ℕ
climbed_state = record {
  used = 1;
  events =
      (record {
        action = "climb";
        tier = some "sovereign";
        reason = by_policy (escalates "gate_fail" "local" "sovereign");
      })
      ∷ [];
}

abbrev upper_route : Route
upper_route = record { tier = "sovereign"; effort = "medium"; alt = 0 }

home-OptedIn :
    OptedIn cents brains_router home_policy home_conversion home_file home_config "home" plain_route
      plain_route
unfolding post_init validate_against_tiers resolve_cascade policy load_cascade_config load_reserved
    load_policies load_policy policy_of_body policy_from
home-OptedIn = record { valid = refl; loaded = refl; resolved = refl; effort_known = refl }

climbs_once :
    cascade_escalate cents brains_router home_policy plain_route failing purse at_first
    ≡ to_route upper_route climbed_state
unfolding cascade_escalate escalate_for escalate_effort escalation_reason follow climb_onto
    admit_climb climb_cost_estimate next_tier spec_for
climbs_once = refl

-- A refused attempt moves to the fallback of the same tier.
moves_aside :
    cascade_escalate cents brains_router home_policy plain_route refusing purse at_first
    ≡ to_route
        (record { tier = "local"; effort = "max"; alt = 1 })
        (record {
          used = 0;
          events =
              (record {
                action = "sideways";
                tier = some "local";
                reason = moves_sideways "refusal" "small" 1 1;
              })
              ∷ [];
        })
unfolding cascade_escalate escalate_for escalation_reason move_sideways
moves_aside = refl

Escalating-Stands_example :
    Stands cents brains_router home_policy 1 upper_route
    × (cascade_escalate cents brains_router home_policy upper_route failing purse climbed_state
        ≢ escalation_raised (by_routing (value_error "medium")))
Escalating-Stands_example =
    Escalating-Stands cents brains_router home_policy home_conversion home_file home_config "home"
      plain_route plain_route upper_route climbed_state failing purse
      (by_routing (value_error "medium")) home-OptedIn (escalated failing purse opened climbs_once)

resolve_cascade-ne-no_ladder_example :
    resolve_cascade home_config (some "home") plain_route ≢ no_ladder
resolve_cascade-ne-no_ladder_example =
    resolve_cascade-ne-no_ladder home_conversion home_file home_config (some "home") plain_route
      home-OptedIn.loaded
