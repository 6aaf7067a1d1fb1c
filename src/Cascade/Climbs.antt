-- ===== src/Cascade/Climbs.antt =====
-- The climbs of a validated policy of harness/cascade.py.
use harnessie.Prelude.{
  ℕ, suc, ◌+◌, ◌-◌, ◌≤◌, ◌<◌, ◌≡◌, ◌≢◌, refl, ap, ◌∙◌, String, Option, none, some, [], true, false,
  leb, arith, length, index, mem, distinct, outside, mem_of_outside, index-get_elem?,
  mem_of_get_elem?, get_elem?-index, ok, raise, Bool-cases, inl, inr, get_elem?-lt, mem-index,
}
use harnessie.Cascade.{
  CascadePolicy, CascadeError, post_init, climb_ceiling, next_tier, climb_from, climb_to, climb,
  Why, contained_tiers, escalation_reasons, off_ladder,
}

-- What `post_init` has checked, of what the climbs depend on.
pub record IsValid (p : CascadePolicy) : Type 0 where
  pub no_repeat : length (distinct p.ladder) ≡ length p.ladder
  pub ceiling_fits : climb_ceiling p ≤ length p.ladder - 1
  pub inside : p.contained ≡ true → outside contained_tiers p.ladder ≡ []
  pub no_refusal : p.contained ≡ true → mem "refusal" p.escalate_on ≡ false
  pub reasons_known : outside escalation_reasons p.escalate_on ≡ []

pub post_init-IsValid : (p : CascadePolicy) → post_init p ≡ ok tt → IsValid p
unfolding post_init climb_ceiling
post_init-IsValid p h = record {
  no_repeat = ground arith;
  ceiling_fits = ground arith;
  inside = ground arith;
  no_refusal = ground arith;
  reasons_known = ground arith;
}

-- Everything that a climb from `current` to `tier` has passed.
pub record IsClimb (p : CascadePolicy) (current : String) (used : ℕ) (reason tier : String)
    : Type 0 where
  pub at : ℕ
  pub stands : index current p.ladder ≡ some at
  pub next_rung : index tier p.ladder ≡ some (suc at)
  pub below_ceiling : used < climb_ceiling p
  pub reason_listed : mem reason p.escalate_on ≡ true

climb_from-IsClimb :
    (p : CascadePolicy) (current : String) (used : ℕ) (reason tier : String) (why : Why)
    (o : Option ℕ)
    → IsValid p
    → index current p.ladder ≡ o
    → climb_from p current used reason o ≡ ok (climb tier why)
    → IsClimb p current used reason tier
unfolding climb_from climb_to
climb_from-IsClimb p current used reason tier why none v e h = cc
climb_from-IsClimb p current used reason tier why (some i) v e h = record {
  at = i;
  stands = e;
  next_rung = index-get_elem? tier p.ladder (suc i) v.no_repeat (ground arith);
  below_ceiling = ground arith;
  reason_listed = ground arith;
}

-- A climb of a valid policy goes to the very next tier of the ladder, for a listed reason, and only
-- while fewer climbs than the ceiling are used.
pub next_tier-IsClimb :
    (p : CascadePolicy) (current : String) (used : ℕ) (reason tier : String) (why : Why)
    → post_init p ≡ ok tt
    → next_tier p current used reason ≡ ok (climb tier why)
    → IsClimb p current used reason tier
unfolding next_tier
next_tier-IsClimb p current used reason tier why checked h =
    climb_from-IsClimb p current used reason tier why (index current p.ladder)
      (post_init-IsValid p checked) refl h

-- A contained policy never climbs to an exposed tier, and never climbs because of a refusal.
pub contained-climb :
    (p : CascadePolicy) (current : String) (used : ℕ) (reason tier : String) (why : Why)
    → post_init p ≡ ok tt
    → p.contained ≡ true
    → next_tier p current used reason ≡ ok (climb tier why)
    → (mem tier contained_tiers ≡ true) × (reason ≢ "refusal")
contained-climb p current used reason tier why checked c h =
    let v = post_init-IsValid p checked in
    let up = next_tier-IsClimb p current used reason tier why checked h in
    (
      mem_of_outside contained_tiers p.ladder tier (v.inside c)
          (mem_of_get_elem? tier p.ladder _ (get_elem?-index tier p.ladder _ up.next_rung)),
      λ e. cc (v.no_refusal c, up.reason_listed, ap (λ r. mem r p.escalate_on) e),
    )

climb_from-ne-raise :
    (p : CascadePolicy) (current : String) (used : ℕ) (reason : String) (i : ℕ) (e : CascadeError)
    → climb_from p current used reason (some i) ≢ raise e
unfolding climb_from climb_to
climb_from-ne-raise p current used reason i e h = elim (Bool-cases (leb (length p.ladder - 1) i)) [
  | inl top ↦ ground arith
  | inr below ↦ let (tier, g) = get_elem?-lt p.ladder (i + 1) (ground arith) in ground (arith, g)
]

next_tier_raises_from :
    (p : CascadePolicy) (current : String) (used : ℕ) (reason : String) (e : CascadeError)
    (o : Option ℕ)
    → index current p.ladder ≡ o
    → climb_from p current used reason o ≡ raise e
    → (mem current p.ladder ≡ false) × (e ≡ off_ladder current)
unfolding climb_from
next_tier_raises_from p current used reason e none at h = elim (Bool-cases (mem current p.ladder)) [
  | inl m ↦ let (i, found) = mem-index current p.ladder m in cc
  | inr m ↦ (m, cc)
]
next_tier_raises_from p current used reason e (some i) at h =
    absurd (climb_from-ne-raise p current used reason i e h)

-- `next_tier` raises only for a tier that is not on the ladder; its subscript is always in range.
pub next_tier_raises :
    (p : CascadePolicy) (current : String) (used : ℕ) (reason : String) (e : CascadeError)
    → next_tier p current used reason ≡ raise e
    → (mem current p.ladder ≡ false) × (e ≡ off_ladder current)
unfolding next_tier
next_tier_raises p current used reason e h =
    next_tier_raises_from p current used reason e (index current p.ladder) refl h

-- `n` climbs in a row from a tier, each with the number of climbs used so far.
pub data Climbs (p : CascadePolicy) (first : String) : ℕ → String → Type 0 where
  none_yet : Climbs p first 0 first
  one_more :
      {n : ℕ} {current tier : String} (reason : String) (why : Why)
      → Climbs p first n current
      → next_tier p current n reason ≡ ok (climb tier why)
      → Climbs p first (suc n) tier

Climbs-index :
    (p : CascadePolicy) (first : String) (i : ℕ) {n : ℕ} {t : String}
    → post_init p ≡ ok tt
    → index first p.ladder ≡ some i
    → Climbs p first n t
    → index t p.ladder ≡ some (i + n)
Climbs-index p first i checked at none_yet = at ∙ ap some (omega arith)
Climbs-index p first i checked at (one_more {n = n} {current = c} {tier = t} reason why before h) =
    let up = next_tier-IsClimb p c n reason t why checked h in
    let was = Climbs-index p first i checked at before in
    ground (arith, up.stands, up.next_rung, was)

-- A phase of a valid policy that starts on the ladder climbs at most `climb_ceiling` times, and
-- after `n` climbs stands exactly `n` tiers further up.
pub Climbs-bounded :
    (p : CascadePolicy) (first : String) (i n : ℕ) (t : String)
    → post_init p ≡ ok tt
    → index first p.ladder ≡ some i
    → Climbs p first n t
    → (n ≤ climb_ceiling p) × (index t p.ladder ≡ some (i + n))
Climbs-bounded p first i n t checked at none_yet =
    (omega arith, Climbs-index p first i checked at none_yet)
Climbs-bounded p first i n t checked at (one_more {n = m} {current = c} reason why before h) = (
  (next_tier-IsClimb p c m reason t why checked h).below_ceiling,
  Climbs-index p first i checked at (one_more reason why before h),
)
