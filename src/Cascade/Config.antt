-- ===== src/Cascade/Config.antt =====
-- `CascadeConfig` of harness/cascade.py and its check against the configured brains.
use harnessie.Prelude.{
  ℕ, ◌≡◌, String, none, some, List, [], ◌∷◌, Bool, true, false, not, arith, mem, lookup,
  mem_of_get_elem?, get_elem?-index, Result, ok, raise, eq_iff, mem_of_outside, outside, raise_if,
  ◌>>◌,
}
use harnessie.Cascade.{
  CascadePolicy, CascadeError, unknown_policy, unconfigured_tiers, post_init, next_tier, climb, Why,
}
use harnessie.Cascade.Climbs.{next_tier-IsClimb}

pub record CascadeConfig : Type 0 where
  pub policies : List (String × CascadePolicy)
  pub reserved : List String

-- `CascadeConfig.policy`
unfoldable pub policy : CascadeConfig → String → Result CascadeError CascadePolicy
policy c name = elim (lookup name c.policies) [ none ↦ raise (unknown_policy name) | some p ↦ ok p ]

-- `CascadeConfig.is_reserved`
unfoldable pub is_reserved : CascadeConfig → String → Bool
is_reserved c work_class = mem work_class c.reserved

abbrev is_empty : List String → Bool
is_empty [] = true
is_empty (_ ∷ _) = false

check_policies : List String → List (String × CascadePolicy) → Result CascadeError (Unit {0})
check_policies tiers [] = ok tt
check_policies tiers ((_, p) ∷ ps) = do
  let missing = outside tiers p.ladder
  raise_if (not (is_empty missing)) (unconfigured_tiers p.name missing)
  check_policies tiers ps

-- `validate_against_tiers`, given the names of the configured tiers.
unfoldable pub validate_against_tiers : CascadeConfig → List String → Result CascadeError (Unit {0})
unfolding check_policies
validate_against_tiers c tiers = check_policies tiers c.policies

check_policies-inside :
    (tiers : List String) (ps : List (String × CascadePolicy)) (name : String) (p : CascadePolicy)
    → check_policies tiers ps ≡ ok tt
    → lookup name ps ≡ some p
    → outside tiers p.ladder ≡ []
unfolding check_policies
check_policies-inside tiers [] name p h l = cc
check_policies-inside tiers ((n, q) ∷ ps) name p h l =
    ground (arith, eq_iff n name, check_policies-inside tiers ps name p)

-- After the check at startup, every tier of a named policy is configured.
pub policy-configured :
    (c : CascadeConfig) (tiers : List String) (name : String) (p : CascadePolicy)
    → validate_against_tiers c tiers ≡ ok tt
    → policy c name ≡ ok p
    → outside tiers p.ladder ≡ []
unfolding validate_against_tiers policy
policy-configured c tiers name p checked named =
    check_policies-inside tiers c.policies name p checked (ground arith)

-- After the check at startup, a climb of any named policy goes to a configured tier.
pub climb-configured :
    (c : CascadeConfig) (tiers : List String) (name : String) (p : CascadePolicy) (current : String)
    (used : ℕ) (reason tier : String) (why : Why)
    → validate_against_tiers c tiers ≡ ok tt
    → policy c name ≡ ok p
    → post_init p ≡ ok tt
    → next_tier p current used reason ≡ ok (climb tier why)
    → mem tier tiers ≡ true
climb-configured c tiers name p current used reason tier why checked named valid h =
    let up = next_tier-IsClimb p current used reason tier why valid h in
    mem_of_outside tiers p.ladder tier (policy-configured c tiers name p checked named)
      (mem_of_get_elem? tier p.ladder _ (get_elem?-index tier p.ladder _ up.next_rung))
