-- ===== src/TraceEval.antt =====
-- harness/trace_eval.py: what `analyze_trace` counts in the events of a run.
-- An event is a JSON object. The rates, quotients of two counts, are left out, and refusals by error stand
-- in the order of their first refusal.
pub mod Counts
use harnessie.Prelude.{
  ℕ, suc, ◌+◌, ◌-◌, String, Option, none, some, List, [], ◌∷◌, ◌++◌, Bool, true, false, not, ◌&&◌,
  if◌then◌else◌, leb, ltb, length, map, keep, mem, str_eq, lookup, insert, distinct, ℤ, pos, negsuc,
}
use harnessie.Prelude.Values.{Value, str, boolean, seq_of, null, Fields, get, to_list}

abbrev pub claim_evidence_kinds : List String
claim_evidence_kinds = "claim_evidence" ∷ "claim_finding" ∷ "claim_verdict" ∷ []

abbrev pub tool_contract_errors : List String
tool_contract_errors = "action_unsupported" ∷ "malformed_arguments" ∷ "bad_arguments" ∷ []

-- `str(value)`, the truth of a value, and `int(value)`, none on what it raises.
pub record Numbers : Type 0 where
  pub show : Value → String
  pub truthy : Value → Bool
  pub to_int : Value → Option ℤ

pub record TraceReport : Type 0 where
  pub model_turns : ℕ
  pub steps : ℕ
  pub tokens : ℕ
  pub tool_results : ℕ
  pub refusals : ℕ
  pub refusals_by_error : List (String × ℕ)
  pub tool_contract_breaks : ℕ
  pub completed_tasks : ℕ
  pub duplicate_tool_calls : ℕ
  pub turns_with_duplicate_calls : ℕ
  pub claim_count : ℕ
  pub covered_claims : List String
  pub uncovered_claims : List String

abbrev is_text : String → Option Value → Bool
is_text s (some (str t)) = str_eq t s
is_text s _ = false

-- The events of one kind.
unfoldable pub of_kind : String → List Fields → List Fields
of_kind kind events = keep (λ e. is_text kind (get "kind" e)) events

-- `list(dict.fromkeys(items))`
unfoldable pub from_keys : List String → List String → List String
from_keys seen [] = []
from_keys seen (x ∷ xs) =
    let again = from_keys seen xs in
    let new = from_keys (x ∷ seen) xs in if mem x seen then again else x ∷ new

abbrev pub or_zero : Option ℕ → ℕ
or_zero none = 0
or_zero (some n) = n

unfoldable pub count_up : String → List (String × ℕ) → List (String × ℕ)
count_up key d = insert key (suc (or_zero (lookup key d))) d

abbrev pub sum : List ℕ → ℕ
sum [] = 0
sum (n ∷ ns) = n + sum ns

abbrev maximum : List ℕ → ℕ
maximum [] = 0
maximum (n ∷ ns) = let m = maximum ns in if leb n m then m else n

unfoldable pub contract_breaks : List (String × ℕ) → ℕ
contract_breaks [] = 0
contract_breaks ((error, n) ∷ d) =
    let rest = contract_breaks d in if mem error tool_contract_errors then n + rest else rest

abbrev nonnegative : Option ℤ → ℕ
nonnegative none = 0
nonnegative (some (pos n)) = n
nonnegative (some (negsuc n)) = 0

abbrev pub one_of : List String → Option Value → Bool
one_of kinds (some (str s)) = mem s kinds
one_of kinds _ = false

module _ (numbers : Numbers) where
  open numbers use {show, truthy, to_int}

  -- `safe_nonnegative_int`; a missing key is None, which `int` refuses.
  unfoldable pub safe_nonnegative_int : Option Value → ℕ
  safe_nonnegative_int none = 0
  safe_nonnegative_int (some (boolean b)) = 0
  safe_nonnegative_int (some v) = nonnegative (to_int v)

  abbrev pub error_key : Option Value → String
  error_key none = "unknown"
  error_key (some v) = if truthy v then show v else "unknown"

  unfoldable pub by_error : List (String × ℕ) → List Fields → List (String × ℕ)
  by_error d [] = d
  by_error d (r ∷ rs) = by_error (count_up (error_key (get "error" r)) d) rs

  abbrev call_names : Option Value → List String
  call_names (some (seq_of vs)) = map show (to_list vs)
  call_names _ = []

  -- The calls of a turn that repeat a name.
  unfoldable pub duplicates_of : Fields → ℕ
  duplicates_of turn =
      let names = call_names (get "tool_calls" turn) in length names - length (distinct names)

  abbrev pub claim_of : Option Value → List String
  claim_of none = []
  claim_of (some null) = []
  claim_of (some v) = show v ∷ []

  unfoldable pub evidenced : List Fields → List String
  evidenced [] = []
  evidenced (e ∷ es) =
      let rest = evidenced es in
      if one_of claim_evidence_kinds (get "kind" e)
      then claim_of (get "claim_id" e) ++ rest
      else rest

  unfoldable pub analyze_trace : List Fields → List String → TraceReport
  analyze_trace events claim_ids =
      let turns = of_kind "model_turn" events in
      let refused = by_error [] (of_kind "refusal" events) in
      let claims = from_keys [] claim_ids in
      record {
        model_turns = length turns;
        steps = maximum (map (λ t. safe_nonnegative_int (get "step" t)) turns);
        tokens = sum (map (λ t. safe_nonnegative_int (get "tokens" t)) turns);
        tool_results = length (of_kind "tool_result" events);
        refusals = length (of_kind "refusal" events);
        refusals_by_error = refused;
        tool_contract_breaks = contract_breaks refused;
        completed_tasks =
            length (keep (λ e. is_text "complete" (get "stop" e)) (of_kind "loop_finished" events));
        duplicate_tool_calls = sum (map duplicates_of turns);
        turns_with_duplicate_calls = length (keep (λ t. ltb 0 (duplicates_of t)) turns);
        claim_count = length claims;
        covered_claims = keep (λ c. mem c (evidenced events)) claims;
        uncovered_claims = keep (λ c. not (mem c (evidenced events))) claims;
      }
