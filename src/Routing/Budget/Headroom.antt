-- ===== src/Routing/Budget/Headroom.antt =====
-- A child budget's ceiling and what its parent has left.
use harnessie.Prelude.{
  ℕ, ◌+◌, ◌-◌, ◌≤◌, ◌≡◌, ap, subst, [], ◌∷◌, true, false, arith, Bool-cases, inl, inr, length,
}
use harnessie.Routing.Budget.Defs.{Money, Way, same_way, is_above, Store, charge, child}
use harnessie.Routing.Budget.Charges.{
  charge_lem, above_parent, same_way_eq, same_way_refl, or_right,
}

-- The parent of a child made when `base` tokens were spent.
pub record Within (money : Money) (base k : ℕ) (p : Way) (s : Store money) : Type 0 where
  pub ceiling : (s (k ∷ p)).max_tokens ≡ (s p).max_tokens - base
  pub seen : base + (s (k ∷ p)).spent_tokens ≤ (s p).spent_tokens

-- What is above an object's child is above the object, or is the child.
above_of_child : (k : ℕ) (p q : Way) → is_above (k ∷ p) q ≡ true → is_above p q ≡ true
above_of_child k p [] h = cc
above_of_child k p (j ∷ q) h = elim (Bool-cases (same_way (k ∷ p) (j ∷ q))) [
  | inl e ↦
      subst (λ (w : Way). is_above p w ≡ true) (same_way_eq (k ∷ p) (j ∷ q) e) (above_parent k p)
  | inr e ↦ or_right _ _ (above_of_child k p q (rw e at h))
]

not_its_child : (k : ℕ) (p : Way) → same_way (k ∷ p) p ≡ false
not_its_child k p = elim (Bool-cases (same_way (k ∷ p) p)) [
  | inl e ↦ absurd (omega (arith, ap length (same_way_eq (k ∷ p) p e)))
  | inr e ↦ e
]

module _ (money : Money) where
  open money use {Amount, zero_usd, headroom}

  module _ {S : Type 0} (cost : S → ℕ → ℕ → Amount) where
    -- Whatever is charged, in whatever order.
    pub data Runs (s : Store money) : Store money → Type 0 where
      start : Runs s s
      then_charge :
          {t : Store money} (spec : S) (tokens_in tokens_out : ℕ) (q : Way)
          → Runs s t
          → Runs s (charge money cost spec tokens_in tokens_out q t)

    Within-charge :
        (base k : ℕ) (p q : Way) (s : Store money) (spec : S) (tokens_in tokens_out : ℕ)
        → Within money base k p s
        → Within money base k p (charge money cost spec tokens_in tokens_out q s)
    Within-charge base k p q s spec ti to w =
        let new_parent = charge_lem money cost spec ti to q p s in
        let new_child = charge_lem money cost spec ti to q (k ∷ p) s in
        record {
          ceiling = ground (arith, new_parent, new_child, w.ceiling);
          seen = ground (arith, new_parent, new_child, w.seen, above_of_child k p q);
        }

    Within-child :
        (k : ℕ) (p : Way) (s : Store money)
        → Within money (s p).spent_tokens k p (child money k p s)
    unfolding child
    Within-child k p s = record {
      ceiling = ground (arith, not_its_child k p, same_way_refl p);
      seen = ground (arith, not_its_child k p, same_way_refl p);
    }

    Within-Runs :
        (base k : ℕ) (p : Way) {s t : Store money}
        → Within money base k p s
        → Runs s t
        → Within money base k p t
    Within-Runs base k p w start = w
    Within-Runs base k p w (then_charge {t = t} spec ti to q r) =
        Within-charge base k p q t spec ti to (Within-Runs base k p w r)

    -- However the run goes on after a child is made, the child's token ceiling is reached only when
    -- its parent's is: the tokens that a child may spend never exceed what the parent has left.
    pub child-within :
        (k : ℕ) (p : Way) (s t : Store money)
        → Runs (child money k p s) t
        → (t (k ∷ p)).max_tokens ≤ (t (k ∷ p)).spent_tokens
        → (t p).max_tokens ≤ (t p).spent_tokens
    child-within k p s t r h =
        let w = Within-Runs (s p).spent_tokens k p (Within-child k p s) r in
        ground (arith, w.ceiling, w.seen)
