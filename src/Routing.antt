-- ===== src/Routing.antt =====
-- harness/routing.py: a route and its escalation ladder, and the router.
-- Tiers and effort levels are texts, as in the configuration; an exception is a `RoutingError`.
pub mod Ladder
pub mod Budget
pub mod Specs
use harnessie.Prelude.{
  ℕ, zero, suc, ◌+◌, ◌-◌, ◌≡◌, String, Option, none, some, List, [], ◌∷◌, ◌++◌, Bool, true, false,
  ltb, leb, if◌then◌else◌, length, get_elem?, index, mem, lookup, Result, ok, raise,
}

-- models/base.py
abbrev pub effort_levels : List String
effort_levels = "low" ∷ "medium" ∷ "high" ∷ "xhigh" ∷ "max" ∷ []

-- Tiers on the default escalation walk, cheap to capable.
abbrev pub tier_order : List String
tier_order = "local" ∷ "cheap" ∷ "mid" ∷ "frontier" ∷ []

-- `sovereign` is routable and stands on no walk.
abbrev pub valid_tiers : List String
valid_tiers = tier_order ++ "sovereign" ∷ []

-- `value_error` is what `index` raises on a value that is not listed, `index_error` what a
-- subscript out of range raises; the last two are those of `spec_for`.
pub data RoutingError : Type 0 where
  value_error : String → RoutingError
  index_error : RoutingError
  no_fallback : String → ℕ → ℕ → RoutingError
  tier_not_configured : String → RoutingError

pub record Route : Type 0 where
  pub tier : String
  pub effort : String
  pub alt : ℕ

-- xs[i]
abbrev pub subscript : List String → ℕ → Result RoutingError String
subscript xs i = elim (get_elem? xs i) [ none ↦ raise index_error | some x ↦ ok x ]

abbrev primary : String → Result RoutingError String → Result RoutingError (Option Route)
primary tier (raise e) = raise e
primary tier (ok effort) = ok (some (record { tier = tier; effort = effort; alt = 0 }))

abbrev next_rung : Result RoutingError String → Result RoutingError (Option Route)
next_rung (raise e) = raise e
next_rung (ok tier) = ok (some (record { tier = tier; effort = "medium"; alt = 0 }))

-- The part of `Route.escalate` that walks the tiers, with `TIER_ORDER.index(self.tier)` given.
escalate_tier : Option ℕ → Result RoutingError (Option Route)
escalate_tier none = ok none
escalate_tier (some t_idx) =
    if ltb t_idx (length tier_order - 1)
    then next_rung (subscript tier_order (t_idx + 1))
    else ok none

-- The body of `Route.escalate`, with `EFFORT_LEVELS.index(self.effort)` given.
escalate_from : Route → Option ℕ → Result RoutingError (Option Route)
unfolding escalate_tier
escalate_from r none = raise (value_error r.effort)
escalate_from r (some e_idx) =
    if ltb e_idx (length effort_levels - 1)
    then primary r.tier (subscript effort_levels (e_idx + 1))
    else if mem r.tier tier_order
    then escalate_tier (index r.tier tier_order)
    else ok none

-- `none` hands the task to a human.
unfoldable pub escalate : Route → Result RoutingError (Option Route)
unfolding escalate_from
escalate r = escalate_from r (index r.effort effort_levels)

-- A row of the routing table: its two keys, and whether it holds any other.
pub record Row : Type 0 where
  pub tier : Option String
  pub effort : Option String
  pub others : Bool

-- `S` is the type of model specs.
pub record Router (S : Type 0) : Type 0 where
  pub tiers : List (String × S)
  pub table : List (String × Row)
  pub default : Route
  pub fallbacks : List (String × List S)

abbrev or_default : Option String → String → String
or_default none d = d
or_default (some s) d = s

abbrev row_route : Route → Row → Route
row_route d row = record {
  tier = or_default row.tier d.tier;
  effort = or_default row.effort d.effort;
  alt = 0;
}

-- an empty mapping is false
abbrev is_empty_row : Option String → Option String → Bool → Bool
is_empty_row none none false = true
is_empty_row _ _ _ = false

abbrev pick_row : Route → Option Row → Route
pick_row d none = d
pick_row d (some row) = if is_empty_row row.tier row.effort row.others then d else row_route d row

module _ {S : Type 0} (router : Router S) where
  unfoldable pub route : String → Route
  route task_class = pick_row router.default (lookup task_class router.table)

  abbrev pub alts_of : String → List S
  alts_of tier = elim (lookup tier router.fallbacks) [ none ↦ [] | some alts ↦ alts ]

  abbrev fallback_spec : String → ℕ → Result RoutingError S
  fallback_spec tier n = elim (get_elem? (alts_of tier) n) [
    | none ↦ raise (no_fallback tier (suc n) (length (alts_of tier)))
    | some spec ↦ ok spec
  ]

  abbrev spec_at : String → ℕ → Result RoutingError S
  spec_at tier zero = elim (lookup tier router.tiers) [
    | none ↦ raise (tier_not_configured tier)
    | some spec ↦ ok spec
  ]
  spec_at tier (suc n) = fallback_spec tier n

  -- `alt = n + 1` picks the n-th fallback, if the tier has so many.
  unfoldable pub spec_for : Route → Result RoutingError S
  spec_for r = spec_at r.tier r.alt
