-- ===== src/Samples/TraceEval.antt =====
-- A trace with two refusals and a claim of which one of two is evidenced.
use harnessie.Prelude.{◌≡◌, refl, String, none, List, [], ◌∷◌, true}
use harnessie.Prelude.Values.{Value, str, Fields, end, field}
use harnessie.TraceEval.{
  Numbers, analyze_trace, of_kind, by_error, count_up, contract_breaks, from_keys, evidenced,
}

abbrev value_name : Value → String
value_name (str s) = s
value_name _ = "value"

abbrev plain_numbers : Numbers
plain_numbers = record { show = value_name; truthy = λ v. true; to_int = λ v. none }

abbrev trace : List Fields
trace =
    field "kind" (str "refusal") (field "error" (str "bad_arguments") end)
    ∷ field "kind" (str "refusal") (field "error" (str "consent_required") end)
    ∷ field "kind" (str "claim_verdict") (field "claim_id" (str "c-a") end)
    ∷ []

abbrev asked : List String
asked = "c-a" ∷ "c-b" ∷ "c-a" ∷ []

half_covered : (analyze_trace plain_numbers trace asked).covered_claims ≡ "c-a" ∷ []
unfolding analyze_trace from_keys evidenced
half_covered = refl

one_break : (analyze_trace plain_numbers trace asked).tool_contract_breaks ≡ 1
unfolding analyze_trace of_kind by_error count_up contract_breaks
one_break = refl
