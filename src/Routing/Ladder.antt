-- ===== src/Routing/Ladder.antt =====
-- The escalation ladder of harness/routing.py: one step, and walks.
use harnessie.Prelude.{
  ℕ, zero, suc, ◌+◌, ◌*◌, ◌≤◌, ◌<◌, ◌≡◌, refl, ap, ◌∙◌, inl, inr, String, Option, none, some, true,
  false, arith, index, mem, index-lt-length, mem-index, not_mem-index, Result, ok, Bool-cases,
}
use harnessie.Routing.{
  Route, effort_levels, tier_order, escalate, escalate_from, escalate_tier, RoutingError,
}

-- The two moves up: more effort at the same tier, or the next tier at medium effort.
pub data Up (r : Route) : Route → Type 0 where
  more_effort :
      (r' : Route) (e : ℕ)
      → index r.effort effort_levels ≡ some e
      → index r'.effort effort_levels ≡ some (suc e)
      → r'.tier ≡ r.tier
      → Up r r'
  next_tier :
      (r' : Route) (t : ℕ)
      → index r.effort effort_levels ≡ some 4
      → index r'.effort effort_levels ≡ some 1
      → index r.tier tier_order ≡ some t
      → index r'.tier tier_order ≡ some (suc t)
      → Up r r'

-- What a returned route holds, read off the answer.
fields_of :
    (t e : String) (r' : Route)
    → ◌≡◌ {A = Result RoutingError (Option Route)}
        (ok (some (record { tier = t; effort = e; alt = 0 })))
        (ok (some r'))
    → (r'.tier ≡ t) × (r'.effort ≡ e) × (r'.alt ≡ 0)
fields_of t e r' h = ground arith

escalate_tier-Up :
    (r r' : Route) (t : ℕ)
    → index r.effort effort_levels ≡ some 4
    → index r.tier tier_order ≡ some t
    → escalate_tier (some t) ≡ ok (some r')
    → Up r r' × (r'.alt ≡ 0)
unfolding escalate_tier
escalate_tier-Up r r' zero he ht h =
    let (a, b, c) = fields_of "cheap" "medium" r' h in
    (next_tier r' 0 he (rw b refl) ht (rw a refl), c)
escalate_tier-Up r r' (suc zero) he ht h =
    let (a, b, c) = fields_of "mid" "medium" r' h in
    (next_tier r' 1 he (rw b refl) ht (rw a refl), c)
escalate_tier-Up r r' (suc (suc zero)) he ht h =
    let (a, b, c) = fields_of "frontier" "medium" r' h in
    (next_tier r' 2 he (rw b refl) ht (rw a refl), c)
escalate_tier-Up r r' (suc (suc (suc t))) he ht h = ground arith

escalate_from-Up :
    (r r' : Route) (o : Option ℕ)
    → index r.effort effort_levels ≡ o
    → escalate_from r o ≡ ok (some r')
    → Up r r' × (r'.alt ≡ 0)
unfolding escalate_from
escalate_from-Up r r' none he h = cc
escalate_from-Up r r' (some zero) he h =
    let (a, b, c) = fields_of r.tier "medium" r' h in (more_effort r' 0 he (rw b refl) a, c)
escalate_from-Up r r' (some (suc zero)) he h =
    let (a, b, c) = fields_of r.tier "high" r' h in (more_effort r' 1 he (rw b refl) a, c)
escalate_from-Up r r' (some (suc (suc zero))) he h =
    let (a, b, c) = fields_of r.tier "xhigh" r' h in (more_effort r' 2 he (rw b refl) a, c)
escalate_from-Up r r' (some (suc (suc (suc zero)))) he h =
    let (a, b, c) = fields_of r.tier "max" r' h in (more_effort r' 3 he (rw b refl) a, c)
escalate_from-Up r r' (some (suc (suc (suc (suc zero))))) he h =
    elim (Bool-cases (mem r.tier tier_order)) [
      | inl m ↦
          let (t, ht) = mem-index r.tier tier_order m in
          escalate_tier-Up r r' t he ht (rw (m, ht) at h)
      | inr m ↦ cc (rw m at h)
    ]
escalate_from-Up r r' (some (suc (suc (suc (suc (suc e)))))) he h =
    absurd (omega (arith, index-lt-length r.effort effort_levels _ he))

-- A route that `escalate` returns is one move up from the old one, and uses the primary brain.
pub escalate-Up : (r r' : Route) → escalate r ≡ ok (some r') → Up r r' × (r'.alt ≡ 0)
unfolding escalate
escalate-Up r r' h = escalate_from-Up r r' (index r.effort effort_levels) refl h

escalate_tier_total : (t : ℕ) → t < 4 → (o : Option Route) × (escalate_tier (some t) ≡ ok o)
unfolding escalate_tier
escalate_tier_total zero h = (_, refl)
escalate_tier_total (suc zero) h = (_, refl)
escalate_tier_total (suc (suc zero)) h = (_, refl)
escalate_tier_total (suc (suc (suc zero))) h = (_, refl)
escalate_tier_total (suc (suc (suc (suc t)))) h = absurd (omega arith)

escalate_from_total :
    (r : Route) (e : ℕ) → e < 5 → (o : Option Route) × (escalate_from r (some e) ≡ ok o)
unfolding escalate_from
escalate_from_total r zero h = (_, refl)
escalate_from_total r (suc zero) h = (_, refl)
escalate_from_total r (suc (suc zero)) h = (_, refl)
escalate_from_total r (suc (suc (suc zero))) h = (_, refl)
escalate_from_total r (suc (suc (suc (suc zero)))) h = elim (Bool-cases (mem r.tier tier_order)) [
  | inl m ↦
      let (t, ht) = mem-index r.tier tier_order m in
      rw (m, ht) (escalate_tier_total t (index-lt-length r.tier tier_order t ht))
  | inr m ↦ (none, rw m refl)
]
escalate_from_total r (suc (suc (suc (suc (suc e))))) h = absurd (omega arith)

-- With a known effort level `escalate` raises nothing.
pub escalate_total :
    (r : Route) → mem r.effort effort_levels ≡ true → (o : Option Route) × (escalate r ≡ ok o)
unfolding escalate
escalate_total r known =
    let (e, he) = mem-index r.effort effort_levels known in
    let found : (o : Option Route) × (escalate_from r (some e) ≡ ok o) =
      escalate_from_total r e (index-lt-length r.effort effort_levels e he) in
    (found.0, ap (escalate_from r) he ∙ found.1)

-- `n` escalations in a row.
pub data Walk (r : Route) : ℕ → Route → Type 0 where
  here : Walk r 0 r
  next : {n : ℕ} {s t : Route} → Walk r n s → escalate s ≡ ok (some t) → Walk r (suc n) t

abbrev tier_rank : Option ℕ → ℕ
tier_rank none = 3
tier_rank (some t) = t

abbrev effort_rank : Option ℕ → ℕ
effort_rank none = 0
effort_rank (some e) = e

-- How far up a route stands; a tier off the walk counts as the top one.
abbrev rank : Route → ℕ
rank r = tier_rank (index r.tier tier_order) * 5 + effort_rank (index r.effort effort_levels)

rank-lt-Up : {r r' : Route} → Up r r' → rank r < rank r'
rank-lt-Up (more_effort r' e he he' ht) = rw (he, he', ht) (omega arith)
rank-lt-Up (next_tier r' t he he' ht ht') = rw (he, he', ht, ht') (omega arith)

sum_bound : (t e : ℕ) → t ≤ 3 → e ≤ 4 → t * 5 + e ≤ 19
sum_bound t e h k = omega arith

tier_rank-le : (o : Option ℕ) → ((i : ℕ) → o ≡ some i → i < 4) → tier_rank o ≤ 3
tier_rank-le none h = omega arith
tier_rank-le (some i) h = omega (arith, h i refl)

effort_rank-le : (o : Option ℕ) → ((i : ℕ) → o ≡ some i → i < 5) → effort_rank o ≤ 4
effort_rank-le none h = omega arith
effort_rank-le (some i) h = omega (arith, h i refl)

rank-le : (r : Route) → rank r ≤ 19
rank-le r =
    let t = tier_rank-le (index r.tier tier_order) (index-lt-length r.tier tier_order) in
    let e =
      effort_rank-le (index r.effort effort_levels) (index-lt-length r.effort effort_levels) in
    sum_bound (tier_rank (index r.tier tier_order)) (effort_rank (index r.effort effort_levels)) t e

rank-add-le-Walk : {r s : Route} {n : ℕ} → Walk r n s → rank r + n ≤ rank s
rank-add-le-Walk here = omega arith
rank-add-le-Walk (next {s = s} {t = t} w h) =
    omega (arith, rank-add-le-Walk w, rank-lt-Up (escalate-Up s t h).0)

-- No route can be escalated more than 19 times in a row: every walk ends with a human.
pub Walk-bounded : (r s : Route) (n : ℕ) → Walk r n s → n ≤ 19
Walk-bounded r s n w = omega (arith, rank-add-le-Walk w, rank-le s)

off_ladder-Up : {r r' : Route} → mem r.tier tier_order ≡ false → Up r r' → r'.tier ≡ r.tier
off_ladder-Up off (more_effort r' e he he' ht) = ht
off_ladder-Up {r} off (next_tier r' t he he' ht ht') = cc (not_mem-index r.tier tier_order off)

-- A tier off the walk, such as `sovereign`, is never left by escalation, however often.
pub Walk-off_ladder :
    (r s : Route) (n : ℕ) → mem r.tier tier_order ≡ false → Walk r n s → s.tier ≡ r.tier
Walk-off_ladder r s n off here = refl
Walk-off_ladder r s n off (next {s = m} {t = t} w h) =
    let same = Walk-off_ladder r m _ off w in
    off_ladder-Up (rw same off) (escalate-Up m t h).0 ∙ same
