-- ===== src/TraceEval/Counts.antt =====
-- How the counts of a trace report hang together.
use harnessie.Prelude.{
  ℕ, ◌+◌, ◌≤◌, ◌≡◌, String, List, [], ◌∷◌, Bool, not, ◌&&◌, if◌then◌else◌, any, length, keep, mem,
  str_eq, lookup,
}
use harnessie.Prelude.Values.{Fields, get}
use harnessie.TraceEval.{
  claim_of, claim_evidence_kinds, one_of, TraceReport, Numbers, of_kind, or_zero, error_key,
  tool_contract_errors,
}

-- All counts of a dictionary.
unfoldable pub total : List (String × ℕ) → ℕ
total [] = 0
total ((key, n) ∷ d) = n + total d

-- One refusal more is counted for its error, and for the contract where it breaks it.
abbrev one_if : Bool → ℕ
one_if b = if b then 1 else 0

module _ (numbers : Numbers) where
  abbrev refusal_error : Fields → String
  refusal_error r = error_key numbers (get "error" r)

  -- An event of one of the three kinds that carry evidence, about this claim.
  abbrev pub is_evidence : String → Fields → Bool
  is_evidence c e =
      one_of claim_evidence_kinds (get "kind" e) && mem c (claim_of numbers (get "claim_id" e))

  -- What a report says of the claims that were asked for and of the refusals.
  pub record Counted (events : List Fields) (claim_ids : List String) (r : TraceReport)
      : Type 0 where
    pub covered :
        (c : String) → mem c r.covered_claims ≡ (mem c claim_ids && any (is_evidence c) events)
    pub uncovered :
        (c : String)
        → mem c r.uncovered_claims ≡ (mem c claim_ids && not (any (is_evidence c) events))
    pub each_once : length r.covered_claims + length r.uncovered_claims ≡ r.claim_count
    pub at_most : r.claim_count ≤ length claim_ids
    pub each_error :
        (error : String)
        → or_zero (lookup error r.refusals_by_error)
          ≡ length (keep (λ e. str_eq (refusal_error e) error) (of_kind "refusal" events))
    pub all_errors : total r.refusals_by_error ≡ length (of_kind "refusal" events)
    pub breaks :
        r.tool_contract_breaks
        ≡ length (keep (λ e. mem (refusal_error e) tool_contract_errors) (of_kind "refusal" events))
