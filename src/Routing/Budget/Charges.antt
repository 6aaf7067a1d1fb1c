-- ===== src/Routing/Budget/Charges.antt =====
-- What a charge does to every budget of the run.
use harnessie.Prelude.{
  ℕ, ◌+◌, ◌≤◌, ◌≡◌, refl, ap, ◌∙◌, [], ◌∷◌, Bool, true, false, ◌||◌, if◌then◌else◌, arith,
  Bool-cases, le→leb, length, inl, inr,
}
use harnessie.Routing.Budget.Defs.{
  Money, Way, same_way, is_above, Level, Store, write, grow, add_spend, charge, is_over, exhausted,
}

pub same_way_refl : (p : Way) → same_way p p ≡ true
same_way_refl [] = refl
same_way_refl (k ∷ p) = ground (arith, same_way_refl p)

pub same_way_eq : (p q : Way) → same_way p q ≡ true → p ≡ q
same_way_eq [] [] h = refl
same_way_eq [] (k ∷ q) h = cc
same_way_eq (j ∷ p) [] h = cc
same_way_eq (j ∷ p) (k ∷ q) h = ground (arith, same_way_eq p q)

length-le-is_above : (q p : Way) → is_above q p ≡ true → length q ≤ length p
length-le-is_above q [] h = omega (arith, ap length (same_way_eq q [] h))
length-le-is_above q (k ∷ p) h = elim (Bool-cases (same_way q (k ∷ p))) [
  | inl e ↦ omega (arith, ap length (same_way_eq q (k ∷ p) e))
  | inr e ↦ omega (arith, length-le-is_above q p (rw e at h))
]

-- No object is above its own parent.
pub not_above_parent : (k : ℕ) (p : Way) → is_above (k ∷ p) p ≡ false
not_above_parent k p = elim (Bool-cases (is_above (k ∷ p) p)) [
  | inl e ↦ absurd (omega (arith, length-le-is_above (k ∷ p) p e))
  | inr e ↦ e
]

-- An object that is `k ∷ p` is not above `p`.
not_above : (k : ℕ) (p q : Way) → same_way q (k ∷ p) ≡ true → is_above q p ≡ false
not_above k p q h = rw (same_way_eq q (k ∷ p) h) (not_above_parent k p)

above_itself : (p : Way) → is_above p p ≡ true
above_itself [] = refl
above_itself (k ∷ p) = rw (same_way_refl p) (ground arith)

pub above_parent : (k : ℕ) (p : Way) → is_above p (k ∷ p) ≡ true
above_parent k p = rw (above_itself p) (ground arith)

or_left : (a b : Bool) → a ≡ true → (a || b) ≡ true
or_left a b h = ground arith

pub or_right : (a b : Bool) → b ≡ true → (a || b) ≡ true
or_right a b h = ground arith

same_way_sym : (p q : Way) → same_way p q ≡ same_way q p
same_way_sym [] [] = refl
same_way_sym [] (k ∷ q) = refl
same_way_sym (j ∷ p) [] = refl
same_way_sym (j ∷ p) (k ∷ q) = ground (arith, same_way_sym p q)

-- Two changes in a row, of which at most one is made.
reach_or {ℓ} :
    {A : Type ℓ} (a b : Bool) (x x' : A) (g : A → A)
    → (a ≡ true → b ≡ false)
    → x' ≡ (if a then g x else x)
    → (if b then g x' else x') ≡ (if a || b then g x else x)
reach_or true true x x' g one h = cc (one refl)
reach_or true false x x' g one h = h
reach_or false true x x' g one h = ap g h
reach_or false false x x' g one h = h

module _ (money : Money) where
  open money use {Amount, zero_usd, le, le_add}

  write_lem :
      (s : Store money) (p q : Way) (l : Store money)
      → write money s p (l p) q ≡ (if same_way q p then l q else s q)
  write_lem s p q l = rw (same_way_sym q p) (elim (Bool-cases (same_way p q)) [
    | inl e ↦ rw e (ap l (same_way_eq p q e))
    | inr e ↦ rw e refl
  ])

  module _ (usd : Amount) (tokens : ℕ) where
    abbrev grown : Store money → Store money
    grown s q = grow money usd tokens (s q)

    -- A spend at `p` reaches exactly the objects above it.
    add_spend_lem :
        (p q : Way) (s : Store money)
        → add_spend money usd tokens p s q ≡ (if is_above q p then grown s q else s q)
    unfolding add_spend
    add_spend_lem [] q s = write_lem s [] q (grown s)
    add_spend_lem (k ∷ p) q s =
        add_spend_lem p q (write money s (k ∷ p) (grown s (k ∷ p)))
        ∙ reach_or (same_way q (k ∷ p)) (is_above q p) (s q) _ (grow money usd tokens)
            (not_above k p q) (write_lem s (k ∷ p) q (grown s))

    -- A budget that is over its ceiling stays over it, if the price is not negative.
    grow-is_over :
        (l : Level money)
        → le zero_usd usd ≡ true
        → is_over money l ≡ true
        → is_over money (grow money usd tokens l) ≡ true
    grow-is_over l pos h = ground (arith, le_add l.max_usd l.spent_usd usd pos)

    is_over-spent :
        (p q : Way) (s : Store money)
        → le zero_usd usd ≡ true
        → is_over money (s q) ≡ true
        → is_over money (add_spend money usd tokens p s q) ≡ true
    is_over-spent p q s pos h = rw (add_spend_lem p q s) (elim (Bool-cases (is_above q p)) [
      | inl e ↦ rw e (grow-is_over (s q) pos h)
      | inr e ↦ rw e h
    ])

    -- An exhausted budget stays exhausted, whichever budget of the run is charged.
    exhausted-spent :
        (p q : Way) (s : Store money)
        → le zero_usd usd ≡ true
        → exhausted money q s ≡ true
        → exhausted money q (add_spend money usd tokens p s) ≡ true
    unfolding exhausted
    exhausted-spent p [] s pos h = is_over-spent p [] s pos h
    exhausted-spent p (k ∷ q) s pos h =
        grind (arith, exhausted-spent p q s pos, is_over-spent p (k ∷ q) s pos)

  module _ {S : Type 0} (cost : S → ℕ → ℕ → Amount) (spec : S) (tokens_in tokens_out : ℕ) where
    charge-eq-add_spend :
        (p : Way) (s : Store money)
        → charge money cost spec tokens_in tokens_out p s
          ≡ add_spend money (cost spec tokens_in tokens_out) (tokens_in + tokens_out) p s
    unfolding charge add_spend
    charge-eq-add_spend [] s = refl
    charge-eq-add_spend (k ∷ p) s = charge-eq-add_spend p _

    -- A charge adds the price and the tokens of the turn to the budget and to each budget above
    -- it, once, and changes no other budget and no ceiling.
    pub charge_lem :
        (p q : Way) (s : Store money)
        → charge money cost spec tokens_in tokens_out p s q ≡ (
            if is_above q p
            then grow money (cost spec tokens_in tokens_out) (tokens_in + tokens_out) (s q)
            else s q)
    charge_lem p q s = rw (charge-eq-add_spend p s) (add_spend_lem _ _ p q s)

    -- If the price of a turn is not negative, a budget that is exhausted stays so, whichever budget
    -- of the run is charged.
    pub exhausted-charge :
        (p q : Way) (s : Store money)
        → le zero_usd (cost spec tokens_in tokens_out) ≡ true
        → exhausted money q s ≡ true
        → exhausted money q (charge money cost spec tokens_in tokens_out p s) ≡ true
    exhausted-charge p q s pos h = rw (charge-eq-add_spend p s) (exhausted-spent _ _ p q s pos h)

    parent_over :
        (p : Way) (j : ℕ) (s : Store money)
        → (s p).max_tokens ≤ (s p).spent_tokens + (tokens_in + tokens_out)
        → is_over money (charge money cost spec tokens_in tokens_out (j ∷ p) s p) ≡ true
    parent_over p j s h =
        rw (charge_lem (j ∷ p) p s, above_parent j p) (or_right _ _ (le→leb _ _ h))

    -- What one child spends, its siblings see: a turn that brings the parent to its token ceiling
    -- exhausts every child of that parent, with no charge of the child's own.
    pub exhausted_sibling :
        (p : Way) (j k : ℕ) (s : Store money)
        → (s p).max_tokens ≤ (s p).spent_tokens + (tokens_in + tokens_out)
        → exhausted money (k ∷ p) (charge money cost spec tokens_in tokens_out (j ∷ p) s) ≡ true
    unfolding exhausted
    exhausted_sibling [] j k s h = or_left _ _ (parent_over [] j s h)
    exhausted_sibling (i ∷ p) j k s h = or_left _ _ (or_right _ _ (parent_over (i ∷ p) j s h))
