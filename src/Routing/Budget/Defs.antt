-- ===== src/Routing/Budget/Defs.antt =====
-- The budgets of a run, and their operations.
use harnessie.Prelude.{
  ℕ, ◌+◌, ◌-◌, List, [], ◌∷◌, Bool, true, false, ◌&&◌, ◌||◌, ◌==◌, leb, if◌then◌else◌, ◌≡◌,
}

-- Amounts of US dollars are Python floats, which are not modelled: this is what the code uses of
-- them. `le a b` is `a <= b`. The laws hold of IEEE addition: adding an amount that is not negative
-- never makes a sum smaller.
pub record Money : Type 1 where
  pub Amount : Type 0
  pub zero_usd : Amount
  pub add : Amount → Amount → Amount
  -- `max(a - b, 0.0)`
  pub headroom : Amount → Amount → Amount
  pub le : Amount → Amount → Bool
  pub le_add : (m a c : Amount) → le zero_usd c ≡ true → le m a ≡ true → le m (add a c) ≡ true

abbrev pub Way : Type 0
Way = List ℕ

abbrev pub same_way : Way → Way → Bool
same_way [] [] = true
same_way (j ∷ p) (k ∷ q) = j == k && same_way p q
same_way _ _ = false

-- `a` is the object `p` or one of its parents.
abbrev pub is_above : Way → Way → Bool
is_above a [] = same_way a []
is_above a (k ∷ p) = same_way a (k ∷ p) || is_above a p

module _ (money : Money) where
  open money use {Amount, zero_usd, add, headroom, le}

  pub record Level : Type 0 where
    pub max_usd : Amount
    pub max_tokens : ℕ
    pub spent_usd : Amount
    pub spent_tokens : ℕ

  abbrev pub Store : Type 0
  Store = Way → Level

  abbrev pub write : Store → Way → Level → Store
  write s p l q = if same_way p q then l else s q

  abbrev pub grow : Amount → ℕ → Level → Level
  grow usd tokens l = record l {
    spent_usd = add l.spent_usd usd;
    spent_tokens = l.spent_tokens + tokens;
  }

  -- `Budget.add_spend`: the object, then its parent.
  unfoldable pub add_spend : Amount → ℕ → Way → Store → Store
  add_spend usd tokens [] s = write s [] (grow usd tokens (s []))
  add_spend usd tokens (k ∷ p) s =
      add_spend usd tokens p (write s (k ∷ p) (grow usd tokens (s (k ∷ p))))

  module _ {S : Type 0} (cost : S → ℕ → ℕ → Amount) (spec : S) (tokens_in tokens_out : ℕ) where
    -- `Budget.charge`: the object, then its parent. `cost` is the float expression that computes the
    -- price of a turn from the two rates of the model.
    unfoldable pub charge : Way → Store → Store
    charge [] s = write s [] (grow (cost spec tokens_in tokens_out) (tokens_in + tokens_out) (s []))
    charge (k ∷ p) s = charge p (
        write s (k ∷ p)
          (grow (cost spec tokens_in tokens_out) (tokens_in + tokens_out) (s (k ∷ p))))

  -- `Budget.child`, made as the object `k ∷ p`.
  unfoldable pub child : ℕ → Way → Store → Store
  child k p s = write s (k ∷ p) (record {
    max_usd = headroom (s p).max_usd (s p).spent_usd;
    max_tokens = (s p).max_tokens - (s p).spent_tokens;
    spent_usd = zero_usd;
    spent_tokens = 0;
  })

  abbrev pub is_over : Level → Bool
  is_over l = le l.max_usd l.spent_usd || leb l.max_tokens l.spent_tokens

  -- `Budget.exhausted`
  unfoldable pub exhausted : Way → Store → Bool
  exhausted [] s = is_over (s [])
  exhausted (k ∷ p) s = exhausted p s || is_over (s (k ∷ p))
