-- ===== src/Cascade.antt =====
-- harness/cascade.py: a declared escalation policy, and one escalation decision.
-- Each message of an exception is a constructor that holds what the message interpolates.
pub mod Climbs
pub mod Config
pub mod Load
pub mod Loaded
use harnessie.Prelude.{
  ℕ, zero, suc, ◌+◌, ◌-◌, ◌≡◌, String, Option, none, some, List, [], ◌∷◌, Bool, true, false, not,
  ◌&&◌, ◌||◌, ◌==◌, ltb, leb, if◌then◌else◌, length, get_elem?, index, mem, distinct, outside,
  Result, ok, raise, raise_if, ◌>>=◌, ◌>>◌, ℤ, pos, negsuc,
}

abbrev pub escalation_reasons : List String
escalation_reasons = "gate_fail" ∷ "schema_fail" ∷ "refusal" ∷ "tool_contract" ∷ []

abbrev pub on_exhaust_values : List String
on_exhaust_values = "reduce_scope" ∷ "defer" ∷ []

-- Tiers that never leave operator control.
abbrev pub contained_tiers : List String
contained_tiers = "local" ∷ "sovereign" ∷ []

pub record CascadePolicy : Type 0 where
  pub name : String
  pub ladder : List String
  pub escalate_on : List String
  pub max_climb : ℤ
  pub on_exhaust : String
  pub data_classes : List String
  pub contained : Bool

pub data CascadeError : Type 0 where
  empty_ladder repeated_tier empty_escalate_on refusal_climb index_error : CascadeError
  unknown_reasons exposed_tiers : List String → CascadeError
  unknown_on_exhaust : String → CascadeError
  climb_out_of_range : ℤ → CascadeError
  off_ladder : String → CascadeError
  unknown_policy : String → CascadeError
  unconfigured_tiers : String → List String → CascadeError

abbrev is_empty : List String → Bool
is_empty [] = true
is_empty (_ ∷ _) = false

-- `max_climb < -1 or max_climb > max_valid`
abbrev out_of_range : ℤ → ℕ → Bool
out_of_range (pos n) max_valid = ltb max_valid n
out_of_range (negsuc zero) max_valid = false
out_of_range (negsuc (suc n)) max_valid = true

-- The tests that only a contained policy has to pass.
check_contained : CascadePolicy → Result CascadeError (Unit {0})
check_contained p = do
  let exposed = outside contained_tiers p.ladder
  raise_if (not (is_empty exposed)) (exposed_tiers exposed)
  raise_if (mem "refusal" p.escalate_on) refusal_climb

-- `CascadePolicy.__post_init__`. The ladder is not empty where its length is lowered by one.
unfoldable pub post_init : CascadePolicy → Result CascadeError (Unit {0})
unfolding check_contained
post_init p = do
  raise_if (is_empty p.ladder) empty_ladder
  raise_if (not (length (distinct p.ladder) == length p.ladder)) repeated_tier
  raise_if (is_empty p.escalate_on) empty_escalate_on
  let unknown = outside escalation_reasons p.escalate_on
  raise_if (not (is_empty unknown)) (unknown_reasons unknown)
  raise_if (not (mem p.on_exhaust on_exhaust_values)) (unknown_on_exhaust p.on_exhaust)
  raise_if (out_of_range p.max_climb (length p.ladder - 1)) (climb_out_of_range p.max_climb)
  if p.contained then check_contained p else ok tt

abbrev ceiling_of : ℤ → ℕ → ℕ
ceiling_of (pos n) top = n
ceiling_of (negsuc n) top = top

-- `-1` is the only negative value that `post_init` lets pass.
unfoldable pub climb_ceiling : CascadePolicy → ℕ
climb_ceiling p = ceiling_of p.max_climb (length p.ladder - 1)

-- Why a decision was made, for the routing trace.
pub data Why : Type 0 where
  does_not_climb : String → List String → Why
  top_of_ladder : String → String → Why
  max_climb_reached : ℕ → String → Why
  escalates : String → String → String → Why

-- The `action` and the `tier` of a `ClimbDecision` are one constructor.
pub data ClimbDecision : Type 0 where
  climb : String → Why → ClimbDecision
  hold : Why → ClimbDecision
  exhausted : Why → ClimbDecision

-- `ladder[idx + 1]`, below the top of the ladder; past the end it would be an IndexError.
climb_to : CascadePolicy → String → String → Option String → Result CascadeError ClimbDecision
climb_to p current reason none = raise index_error
climb_to p current reason (some tier) = ok (climb tier (escalates reason current tier))

-- The rest of `next_tier`, with `ladder.index(current_tier)` given.
climb_from : CascadePolicy → String → ℕ → String → Option ℕ → Result CascadeError ClimbDecision
unfolding climb_to climb_ceiling
climb_from p current climbs_used reason none = raise (off_ladder current)
climb_from p current climbs_used reason (some idx) =
    if not (mem reason p.escalate_on)
    then ok (hold (does_not_climb reason p.escalate_on))
    else if leb (length p.ladder - 1) idx
    then ok (exhausted (top_of_ladder current p.on_exhaust))
    else if leb (climb_ceiling p) climbs_used
    then ok (exhausted (max_climb_reached (climb_ceiling p) p.on_exhaust))
    else climb_to p current reason (get_elem? p.ladder (idx + 1))

unfoldable pub next_tier : CascadePolicy → String → ℕ → String → Result CascadeError ClimbDecision
unfolding climb_from
next_tier p current climbs_used reason =
    climb_from p current climbs_used reason (index current p.ladder)
