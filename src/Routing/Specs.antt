-- ===== src/Routing/Specs.antt =====
-- Where `Router.spec_for` finds a spec.
use harnessie.Prelude.{String, ℕ, suc, ◌≡◌, refl, some, ok, lookup, get_elem?}
use harnessie.Routing.{Route, Router, spec_at, fallback_spec, alts_of, spec_for}

module _ {S : Type 0} (router : Router S) where
  pub spec_for-primary :
      (route : Route) (spec : S)
      → route.alt ≡ 0
      → lookup route.tier router.tiers ≡ some spec
      → spec_for router route ≡ ok spec
  unfolding spec_for
  spec_for-primary route spec first found = rw first (rw (found, spec_at) refl)

  fallback_spec-found :
      (tier : String) (n : ℕ) (spec : S)
      → get_elem? (alts_of router tier) n ≡ some spec
      → fallback_spec router tier n ≡ ok spec
  fallback_spec-found tier n spec found = rw (found, fallback_spec) refl

  -- A move to the next fallback, where there is one, is to its spec.
  pub spec_for-fallback :
      (route : Route) (spec : S)
      → get_elem? (alts_of router route.tier) route.alt ≡ some spec
      → spec_for router (record route { alt = suc route.alt }) ≡ ok spec
  unfolding spec_for
  spec_for-fallback route spec found = fallback_spec-found route.tier route.alt spec found
