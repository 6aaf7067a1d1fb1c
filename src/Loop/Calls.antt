-- ===== src/Loop/Calls.antt =====
-- One tool call of harness/loop.py, from its name to the context.
use harnessie.Prelude.{
  ◌++◌, ℕ, String, ◌<>◌, Option, none, some, List, [], ◌∷◌, Bool, true, false, if◌then◌else◌,
  str_eq, clip, length,
}
use harnessie.Prelude.Values.{get}
use harnessie.Tools.{Refusal, ToolResult, provenance_for}
use harnessie.Loop.Defs.{
  Event, Message, ToolCall, Stop, complete, declined, secret_egress, blast_radius, boundary_strip,
  secret_egress_halt, task_complete, consent_granted, consent_declined, tool_result, tool_refusal,
  injection_flag, LoopResult, Detail, no_detail, decline, Contained, passed, halted, AgentLoop,
  State, goes_on, finished, plain, text_or, emit, finish, dispatch_call, is_failure, Failure,
}

-- What one tool call leaves for the count of failures.
pub data Mark : Type 0 where
  unmarked succeeded : Mark
  failed : Failure → Mark

pub data Called (W : Type 0) : Type 0 where
  next_call : Mark → State W → Called W
  returned_in_call : LoopResult → State W → Called W

abbrev pub mark_of : ToolCall → ToolResult → Mark
mark_of tc res =
    if is_failure res.is_ok res.refusal then failed (tc.name, clip 120 res.content) else succeeded

-- The events of a result, before its content is looked at.
abbrev pub refusal_events : String → Option Refusal → List Event
refusal_events tool none = []
refusal_events tool (some r) = tool_refusal tool r ∷ []

abbrev pub is_blast_radius : Option Refusal → Bool
is_blast_radius none = false
is_blast_radius (some r) = str_eq r.error "blast_radius_exceeded"

abbrev pub detail_of : Option Refusal → String
detail_of none = ""
detail_of (some r) = r.detail

abbrev pub is_nil {ℓ} : {A : Type ℓ} → List A → Bool
is_nil [] = true
is_nil (_ ∷ _) = false

-- `_finish`, from inside a tool call.
abbrev pub stop_call : {W : Type 0} → Stop → String → ℕ → Detail → State W → Called W
stop_call stop report step detail s = elim (finish stop report step detail s) [
  | finished r t ↦ returned_in_call r t
  | goes_on t ↦ next_call unmarked t
]

module _ {W : Type 0} (loop : AgentLoop W) where
  open loop use {registry, outside}

  abbrev pub strip_events : List String → List Event
  strip_events kinds =
      if is_nil kinds then [] else boundary_strip (outside.distinct_kinds kinds) (length kinds) ∷ []

  abbrev pub stripped : List String → State W → State W
  stripped kinds s = record s { events = s.events ++ strip_events kinds }

  abbrev pub contained : String → State W → Contained × State W
  contained text s = let (c, w) = outside.contain text s.world in (c, record s { world = w })

  abbrev pub flag_events : ToolCall → List String → List Event
  flag_events tc flags = if is_nil flags then [] else injection_flag tc.name flags ∷ []

  abbrev pub flag_messages : List String → List Message
  flag_messages flags = if is_nil flags then [] else plain "user" (outside.flag_notice flags) ∷ []

  abbrev pub tool_message : ToolCall → String → Message
  tool_message tc content = record {
    role = "tool";
    content = content;
    tool_calls = [];
    tool_call_id = tc.id;
    name = tc.name;
  }

  -- The content of a result enters the context, with a notice if the injection filter fired.
  unfoldable pub enter_context : ℕ → ToolCall → ToolResult → Contained → State W → Called W
  enter_context step tc res (passed content kinds) s = next_call (mark_of tc res) (record s {
    messages = s.messages ++ (tool_message tc content ∷ flag_messages res.flags);
    events = s.events ++ (strip_events kinds ++ flag_events tc res.flags);
  })
  enter_context step tc res (halted kinds) s =
      stop_call secret_egress (outside.halt_text kinds) step no_detail
        (emit (secret_egress_halt tc.name (outside.distinct_kinds kinds)) s)

  -- A refusal that reports a breached ceiling halts the phase; any other result enters the context.
  unfoldable pub settle_result : ℕ → ToolCall → ToolResult → Bool → State W → Called W
  settle_result step tc res true s = stop_call blast_radius (detail_of res.refusal) step no_detail s
  settle_result step tc res false s =
      let (c, t) = contained res.content s in enter_context step tc res c t

  -- What follows the dispatch of one tool call.
  unfoldable pub after_result : ℕ → ToolCall → ToolResult → State W → Called W
  after_result step tc res s = settle_result step tc res (is_blast_radius res.refusal) (record s {
    events =
        s.events
        ++ (tool_result tc.name tc.id (provenance_for registry tc.name) res.is_ok
              (clip 300 res.content)
            ∷ refusal_events tc.name res.refusal);
  })

  -- The call of a tool of the registry.
  unfoldable pub tool_call : ℕ → ToolCall → State W → Called W
  tool_call step tc s =
      let (res, w) = dispatch_call loop s.consented tc.name tc.arguments s.world in
      after_result step tc res (record s { world = w })

  abbrev pub argument : String → ToolCall → String
  argument key tc = text_or (get key tc.arguments) outside.to_text

  -- `task_complete`
  unfoldable pub complete_call : ℕ → ToolCall → State W → Called W
  complete_call step tc s =
      stop_call complete (argument "report" tc) step no_detail (emit (task_complete step) s)

  -- `accept_task`
  unfoldable pub accept_call : ℕ → ToolCall → State W → Called W
  accept_call step tc s = next_call unmarked (record s {
    consented = true;
    events = s.events ++ consent_granted step (argument "note" tc) ∷ [];
    messages =
        s.messages
        ++ tool_message tc
            ("Consent recorded. Side-effecting tools are now " <> "available for this task.")
          ∷ [];
  })

  -- `decline_task`
  unfoldable pub decline_call : ℕ → ToolCall → State W → Called W
  decline_call step tc s =
      stop_call declined ("declined: " <> argument "reason" tc) step
        (decline (argument "reason" tc) (argument "counter_proposal" tc))
        (emit
          (consent_declined step (clip 500 (argument "reason" tc))
            (clip 500 (argument "counter_proposal" tc)))
          s)

  -- One round of the `for tc in turn.tool_calls` loop.
  unfoldable pub handle_call : ℕ → ToolCall → State W → Called W
  handle_call step tc s =
      if str_eq tc.name "task_complete"
      then complete_call step tc s
      else if str_eq tc.name "accept_task"
      then accept_call step tc s
      else if str_eq tc.name "decline_task"
      then decline_call step tc s
      else tool_call step tc s
