-- ===== src/Workflow/Approvals.antt =====
-- `_approval_handler_for` of harness/runner.py: who answers a tool that wants approval.
use harnessie.Prelude.{
  String, Option, none, some, List, [], ◌∷◌, Bool, true, false, mem, if◌then◌else◌,
}
use harnessie.Approval.{ApprovalPolicy, decide, tty_approval}

-- Every grant and every denial is an event.
pub data ApprovalEvent : Type 0 where
  approval_granted approval_denied : (tool source : String) → ApprovalEvent
  approval_policy_invalid : List String → ApprovalEvent

abbrev approval_event : Bool → String → String → ApprovalEvent
approval_event true tool source = approval_granted tool source
approval_event false tool source = approval_denied tool source

abbrev invalid_policy : List String → List ApprovalEvent
invalid_policy [] = []
invalid_policy (p ∷ ps) = approval_policy_invalid (p ∷ ps) ∷ []

-- The terminal, or the default, which denies.
unfoldable pub ask_terminal : Option Bool → String → Bool × List ApprovalEvent
ask_terminal (some b) tool = (b, approval_event b tool "tty" ∷ [])
ask_terminal none tool = (false, approval_denied tool "default-deny" ∷ [])

-- `interactive` where the run may ask; `terminal` and `answer` are what `tty_approval` finds.
unfoldable pub ask_operator : Bool → Bool → String → String → Bool × List ApprovalEvent
ask_operator true terminal answer tool = ask_terminal (tty_approval terminal answer) tool
ask_operator false terminal answer tool = ask_terminal none tool

unfoldable pub ask_policy :
    Option Bool → List String → Bool → Bool → String → String → Bool × List ApprovalEvent
ask_policy (some b) problems interactive terminal answer tool =
    (b, approval_event b tool "policy-file" ∷ invalid_policy problems)
ask_policy none problems interactive terminal answer tool =
    ask_operator interactive terminal answer tool

unfoldable pub ask_file :
    Option ApprovalPolicy → String → Bool → Bool → String → String → Bool × List ApprovalEvent
ask_file none phase interactive terminal answer tool = ask_operator interactive terminal answer tool
ask_file (some policy) phase interactive terminal answer tool =
    ask_policy (decide policy phase tool) policy.problems interactive terminal answer tool

-- The handler of a phase: the workflow's list, the policy file, the terminal, in this order.
unfoldable pub approval_handler :
    List String
    → Option ApprovalPolicy
    → String
    → Bool
    → Bool
    → String
    → String
    → Bool × List ApprovalEvent
approval_handler approve_tools policy phase interactive terminal answer tool =
    if mem tool approve_tools
    then (true, approval_granted tool "workflow-config" ∷ [])
    else ask_file policy phase interactive terminal answer tool
