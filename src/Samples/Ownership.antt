-- ===== src/Samples/Ownership.antt =====
-- A ledger with an operator lane, an agent's lane and a claim.
use harnessie.Prelude.{none, ◌≡◌, refl, String, [], ◌∷◌, true, false, any, str_eq}
use harnessie.Ownership.{
  OwnershipLedger, decision_or, or_else, first_match, agent_lane_decision, claimed_decision,
  confinement_patterns, declared_decision, explain_write, check_write, claim,
}
use harnessie.Ownership.Lanes.{refused_confined, check_write-claim}

abbrev ledger : OwnershipLedger
ledger = record {
  agent_lanes = ("ana", "app.py" ∷ []) ∷ [];
  collaborative = "notes.md" ∷ [];
  operator = "ci.yml" ∷ [];
  files = ("b.py", "ben") ∷ [];
}

abbrev repr : String → String
repr s = s

-- Exact patterns: a glob without wildcards.
operator_lane : (check_write str_eq repr ledger "ana" "ci.yml").0 ≡ false
unfolding check_write explain_write decision_or declared_decision or_else first_match
    agent_lane_decision claimed_decision
operator_lane = refl

own_lane : (check_write str_eq repr ledger "ana" "app.py").0 ≡ true
unfolding check_write explain_write decision_or declared_decision or_else first_match
    agent_lane_decision claimed_decision
own_lane = refl

refused_to_ana : (explain_write str_eq repr ledger "ana" "b.py").allowed ≡ false
unfolding explain_write decision_or declared_decision or_else first_match agent_lane_decision
    claimed_decision
refused_to_ana = refl

refused_confined_example : any (str_eq "b.py") (confinement_patterns ledger "ana") ≡ true
refused_confined_example = refused_confined str_eq repr ledger "ana" "b.py" refl refused_to_ana

abbrev later : OwnershipLedger
later = record ledger { files = ("b.py", "ben") ∷ ("new.py", "ana") ∷ [] }

claimed_by_ana : claim str_eq repr ledger "ana" "new.py" ≡ (true, later)
unfolding claim
claimed_by_ana = refl

undeclared_for_ben : declared_decision str_eq repr ledger "ben" "new.py" ≡ none
unfolding declared_decision or_else first_match agent_lane_decision
undeclared_for_ben = refl

check_write-claim_example : (check_write str_eq repr later "ben" "new.py").0 ≡ str_eq "ana" "ben"
check_write-claim_example =
    check_write-claim str_eq repr ledger later "ana" "ben" "new.py" claimed_by_ana
      undeclared_for_ben
