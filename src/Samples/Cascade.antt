-- ===== src/Samples/Cascade.antt =====
-- A contained policy at concrete inputs.
use harnessie.Prelude.{
  ◌+◌, ◌≤◌, ◌≡◌, ◌≢◌, refl, String, some, List, [], ◌∷◌, true, false, index, mem, ok, raise, negsuc,
}
use harnessie.Cascade.{
  CascadePolicy, contained_tiers, exposed_tiers, off_ladder, post_init, climb_ceiling, next_tier,
  climb, escalates,
}
use harnessie.Cascade.Climbs.{
  IsClimb, next_tier-IsClimb, contained-climb, next_tier_raises, none_yet, one_more, Climbs-bounded,
}
use harnessie.Cascade.Config.{CascadeConfig, policy, validate_against_tiers}

abbrev private_policy : CascadePolicy
private_policy = record {
  name = "private";
  ladder = "local" ∷ "sovereign" ∷ [];
  escalate_on = "gate_fail" ∷ [];
  max_climb = negsuc 0;
  on_exhaust = "defer";
  data_classes = [];
  contained = true;
}

private_checked : post_init private_policy ≡ ok tt
unfolding post_init
private_checked = refl

leaky_refused :
    post_init (record private_policy { ladder = "local" ∷ "frontier" ∷ [] })
    ≡ raise (exposed_tiers ("frontier" ∷ []))
unfolding post_init
leaky_refused = refl

private_climbs :
    next_tier private_policy "local" 0 "gate_fail"
    ≡ ok (climb "sovereign" (escalates "gate_fail" "local" "sovereign"))
unfolding next_tier
private_climbs = refl

next_tier-IsClimb_example : IsClimb private_policy "local" 0 "gate_fail" "sovereign"
next_tier-IsClimb_example =
    next_tier-IsClimb private_policy "local" 0 "gate_fail" "sovereign"
      (escalates "gate_fail" "local" "sovereign") private_checked private_climbs

contained-climb_example :
    (mem "sovereign" contained_tiers ≡ true) × (◌≢◌ {A = String} "gate_fail" "refusal")
contained-climb_example =
    contained-climb private_policy "local" 0 "gate_fail" "sovereign"
      (escalates "gate_fail" "local" "sovereign") private_checked refl private_climbs

mid_off_ladder : next_tier private_policy "mid" 0 "gate_fail" ≡ raise (off_ladder "mid")
unfolding next_tier
mid_off_ladder = refl

next_tier_raises_example :
    (mem "mid" private_policy.ladder ≡ false) × (off_ladder "mid" ≡ off_ladder "mid")
next_tier_raises_example =
    next_tier_raises private_policy "mid" 0 "gate_fail" (off_ladder "mid") mid_off_ladder

Climbs-bounded_example :
    (1 ≤ climb_ceiling private_policy) × (index "sovereign" private_policy.ladder ≡ some (0 + 1))
Climbs-bounded_example =
    Climbs-bounded private_policy "local" 0 1 "sovereign" private_checked refl
      (one_more "gate_fail" (escalates "gate_fail" "local" "sovereign") none_yet private_climbs)

abbrev config : CascadeConfig
config = record { policies = ("private", private_policy) ∷ []; reserved = [] }

abbrev brains : List String
brains = "local" ∷ "frontier" ∷ "sovereign" ∷ []

config_checked : validate_against_tiers config brains ≡ ok tt
unfolding validate_against_tiers
config_checked = refl

private_named : policy config "private" ≡ ok private_policy
unfolding policy
private_named = refl
