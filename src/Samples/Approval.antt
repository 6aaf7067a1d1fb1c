-- ===== src/Samples/Approval.antt =====
-- A policy that allows one tool in one phase.
use harnessie.Prelude.{◌≡◌, refl, String, some, List, [], true}
use harnessie.Prelude.Values.{Value, str, obj, seq_of, done, element, Fields, end, field}
use harnessie.Approval.{
  Printing, parsed, load, load_root, load_checked, policy_of, rules, rules_from, rule_of, decide,
  decide_with, decide_clean, matches,
}
use harnessie.Approval.Rules.{AllowedBy, mapping_of, load-AllowedBy}

abbrev stripped : Value → String
stripped (str s) = s
stripped _ = "value"

abbrev printing : Printing
printing = record { stripped = stripped; show_index = λ n. "n"; truthy = λ v. true }

abbrev document : Fields
document =
    field "allow"
      (seq_of
        (element (obj (field "tool" (str "run_shell") (field "phase" (str "build") end))) done))
      end

build_allowed :
    decide (load printing (λ d. []) (parsed (obj document))) "build" "run_shell" ≡ some true
unfolding decide load load_root load_checked policy_of rules rules_from rule_of decide_with
    decide_clean matches
build_allowed = refl

load-AllowedBy_example :
    (v : Value) × (d : Fields) × (parsed (obj document) ≡ parsed v)
    × (mapping_of v true ≡ some d)
    × (◌≡◌ {A = List String} [] [])
    × AllowedBy (policy_of printing d) "build" "run_shell"
load-AllowedBy_example =
    load-AllowedBy printing (λ d. []) "build" "run_shell" (parsed (obj document)) build_allowed
