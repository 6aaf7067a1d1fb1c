-- ===== src/Approval.antt =====
-- harness/approval.py: the operator's policy for tools that ask for approval.
pub mod Rules
use harnessie.Prelude.{
  ℕ, suc, String, ◌<>◌, Option, none, some, List, [], ◌∷◌, ◌++◌, Bool, true, false, not, ◌&&◌, ◌||◌,
  if◌then◌else◌, any, str_eq,
}
use harnessie.Prelude.Values.{Value, seq_of, obj, null, Elements, done, element, Fields, get, str}

pub record ApprovalRule : Type 0 where
  pub tool : String
  pub phase : String

-- `ApprovalRule.matches`
unfoldable pub matches : String → String → ApprovalRule → Bool
matches phase tool rule = str_eq rule.tool tool && (str_eq rule.phase "" || str_eq rule.phase phase)

pub record ApprovalPolicy : Type 0 where
  pub allow : List ApprovalRule
  pub deny : List ApprovalRule
  pub problems : List String

-- What a policy says of a call: yes, no, or nothing.
unfoldable pub decide_clean : ApprovalPolicy → String → String → Option Bool
decide_clean policy phase tool =
    if any (matches phase tool) policy.deny
    then some false
    else if any (matches phase tool) policy.allow
    then some true
    else none

unfoldable pub decide_with : List String → ApprovalPolicy → String → String → Option Bool
decide_with [] policy phase tool = decide_clean policy phase tool
decide_with (_ ∷ _) policy phase tool = some false

-- `ApprovalPolicy.decide`
unfoldable pub decide : ApprovalPolicy → String → String → Option Bool
decide policy phase tool = decide_with policy.problems policy phase tool

-- `str(v).strip()`, the printing of a number, and Python's truth of a value.
pub record Printing : Type 0 where
  pub stripped : Value → String
  pub show_index : ℕ → String
  pub truthy : Value → Bool

-- What reading the policy's file comes to.
pub data PolicyFile : Type 0 where
  missing : String → PolicyFile
  unreadable : String → PolicyFile
  parsed : Value → PolicyFile

module _ (printing : Printing) where
  abbrev text_at : String → Fields → String
  text_at key item = elim (get key item) [
    | none ↦ printing.stripped (str "")
    | some v ↦ printing.stripped v
  ]

  abbrev at_index : String → ℕ → String → String
  at_index key i message = key <> ("[" <> (printing.show_index i <> ("] " <> message)))

  -- A rule, or the problem of an item.
  unfoldable pub rule_of : String → ℕ → Value → List ApprovalRule × List String
  rule_of key i (obj item) =
      if str_eq (text_at "tool" item) ""
      then ([], at_index key i "must name a tool" ∷ [])
      else ((record { tool = text_at "tool" item; phase = text_at "phase" item }) ∷ [], [])
  rule_of key i _ = ([], at_index key i "must be a mapping" ∷ [])

  unfoldable pub rules_from : String → ℕ → Elements → List ApprovalRule × List String
  rules_from key i done = ([], [])
  rules_from key i (element v vs) =
      let first = rule_of key i v in
      let rest = rules_from key (suc i) vs in (first.0 ++ rest.0, first.1 ++ rest.1)

  -- `_rules`, with the problems that it adds.
  unfoldable pub rules : Option Value → String → List ApprovalRule × List String
  rules none key = ([], [])
  rules (some null) key = ([], [])
  rules (some (seq_of vs)) key = rules_from key 0 vs
  rules (some _) key = ([], (key <> " must be a list") ∷ [])

  abbrev broken : List String → ApprovalPolicy
  broken problems = record { allow = []; deny = []; problems = problems }

  -- The policy of a mapping that the schema accepts.
  unfoldable pub policy_of : Fields → ApprovalPolicy
  policy_of d =
      let allowed = rules (get "allow" d) "allow" in
      let denied = rules (get "deny" d) "deny" in
      record { allow = allowed.0; deny = denied.0; problems = allowed.1 ++ denied.1 }

  unfoldable pub load_checked : List String → Fields → ApprovalPolicy
  load_checked [] d = policy_of d
  load_checked (p ∷ ps) d = broken (p ∷ ps)

  -- `yaml.safe_load(...) or {}`, with the truth of the value given.
  unfoldable pub load_root : (Fields → List String) → Value → Bool → ApprovalPolicy
  load_root validate v false = load_checked (validate Fields.end) Fields.end
  load_root validate (obj d) true = load_checked (validate d) d
  load_root validate _ true = broken ("policy root must be a mapping" ∷ [])

  -- `ApprovalPolicy.load`; `validate` is the schema's.
  unfoldable pub load : (Fields → List String) → PolicyFile → ApprovalPolicy
  load validate (missing path) = broken (("policy missing: " <> path) ∷ [])
  load validate (unreadable kind) = broken (("invalid YAML: " <> kind) ∷ [])
  load validate (parsed v) = load_root validate v (printing.truthy v)

-- `tty_approval`: nothing without a terminal, else whether the stripped, lowered answer is a yes.
unfoldable pub tty_approval : Bool → String → Option Bool
tty_approval false answer = none
tty_approval true answer = some (str_eq answer "y" || str_eq answer "yes")
