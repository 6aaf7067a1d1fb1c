-- ===== src/Samples/Routing.antt =====
-- Routes and budgets at concrete inputs.
use harnessie.Prelude.{
  ℕ, ◌+◌, ◌-◌, ◌*◌, ◌≤◌, ◌≡◌, refl, String, Option, some, [], ◌∷◌, true, arith, leb, ok, raise,
}
use harnessie.Routing.{Route, value_error, escalate}
use harnessie.Routing.Ladder.{
  Up, Walk, here, next, escalate-Up, escalate_total, Walk-bounded, Walk-off_ladder,
}
use harnessie.Routing.Budget.{Money, Way, Store, grow, charge, child, exhausted}
use harnessie.Routing.Budget.Charges.{charge_lem, exhausted-charge, exhausted_sibling}
use harnessie.Routing.Budget.Headroom.{start, then_charge, child-within}

abbrev at : String → String → Route
at tier effort = record { tier = tier; effort = effort; alt = 2 }

escalate_test :
    escalate (at "cheap" "max") ≡ ok (some (record { tier = "mid"; effort = "medium"; alt = 0 }))
unfolding escalate
escalate_test = refl

escalate_unknown : escalate (at "cheap" "huge") ≡ raise (value_error "huge")
unfolding escalate
escalate_unknown = refl

escalate-Up_example :
    Up (at "cheap" "max") (record { tier = "mid"; effort = "medium"; alt = 0 }) × (◌≡◌ {A = ℕ} 0 0)
escalate-Up_example =
    escalate-Up (at "cheap" "max") (record { tier = "mid"; effort = "medium"; alt = 0 })
      escalate_test

escalate_total_example : (o : Option Route) × (escalate (at "sovereign" "max") ≡ ok o)
escalate_total_example = escalate_total (at "sovereign" "max") refl

abbrev high_sovereign : Route
high_sovereign = record { tier = "sovereign"; effort = "xhigh"; alt = 0 }

abbrev max_sovereign : Route
max_sovereign = record { tier = "sovereign"; effort = "max"; alt = 0 }

sovereign_up : escalate high_sovereign ≡ ok (some max_sovereign)
unfolding escalate
sovereign_up = refl

sovereign-Walk : Walk high_sovereign 1 max_sovereign
sovereign-Walk = next here sovereign_up

Walk-bounded_example : 1 ≤ 19
Walk-bounded_example = Walk-bounded high_sovereign max_sovereign 1 sovereign-Walk

Walk-off_ladder_example : max_sovereign.tier ≡ high_sovereign.tier
Walk-off_ladder_example = Walk-off_ladder high_sovereign max_sovereign 1 refl sovereign-Walk

-- Whole dollars.
dollars_law : (m a c : ℕ) → leb 0 c ≡ true → leb m a ≡ true → leb m (a + c) ≡ true
dollars_law m a c h k = ground arith

abbrev dollars : Money
dollars = record {
  Amount = ℕ;
  zero_usd = 0;
  add = λ a b. a + b;
  headroom = λ a b. a - b;
  le = leb;
  le_add = dollars_law;
}

abbrev price : ℕ → ℕ → ℕ → ℕ
price rate tokens_in tokens_out = rate * (tokens_in + tokens_out)

abbrev fresh : Store dollars
fresh _ = record { max_usd = 10; max_tokens = 100; spent_usd = 0; spent_tokens = 0 }

abbrev run : Way
run = []

abbrev two_children : Store dollars
two_children = child dollars 1 run (child dollars 0 run fresh)

charge_lem_example : charge dollars price 0 30 40 (0 ∷ []) fresh run ≡ grow dollars 0 70 (fresh run)
charge_lem_example = charge_lem dollars price 0 30 40 (0 ∷ []) run fresh

abbrev spent_out : Store dollars
spent_out _ = record { max_usd = 10; max_tokens = 100; spent_usd = 0; spent_tokens = 100 }

spent_out-exhausted : exhausted dollars run spent_out ≡ true
unfolding exhausted
spent_out-exhausted = refl

exhausted-charge_example :
    exhausted dollars run (charge dollars price 1 30 40 (0 ∷ []) spent_out) ≡ true
exhausted-charge_example =
    exhausted-charge dollars price 1 30 40 (0 ∷ []) run spent_out refl spent_out-exhausted

exhausted_sibling_example :
    exhausted dollars (1 ∷ []) (charge dollars price 0 60 40 (0 ∷ []) fresh) ≡ true
exhausted_sibling_example = exhausted_sibling dollars price 0 60 40 run 0 1 fresh (omega arith)

abbrev after_child : Store dollars
after_child = charge dollars price 0 60 40 (0 ∷ []) (child dollars 0 run fresh)

child-within_example : (after_child run).max_tokens ≤ (after_child run).spent_tokens
unfolding charge child
child-within_example =
    child-within dollars price 0 run fresh after_child (then_charge 0 60 40 (0 ∷ []) start)
      (omega arith)
