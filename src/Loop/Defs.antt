-- ===== src/Loop/Defs.antt =====
-- The state of the loop, its calls of the outside, and its step.
use harnessie.Prelude.{
  ℕ, String, ◌<>◌, Option, none, some, List, [], ◌∷◌, ◌++◌, Bool, true, false, not, ◌&&◌,
  if◌then◌else◌, mem, str_eq,
}
use harnessie.Prelude.Values.{Value, Fields}
use harnessie.Tools.{
  Refusal, Caller, ToolSpec, ToolResult, Dispatched, returned, denied, ToolRegistry, refusal_result,
  dispatch,
}

-- models/base.py
pub record ToolCall : Type 0 where
  pub id : String
  pub name : String
  pub arguments : Fields

pub record Message : Type 0 where
  pub role : String
  pub content : String
  pub tool_calls : List ToolCall
  pub tool_call_id : String
  pub name : String

pub record AssistantTurn : Type 0 where
  pub content : String
  pub tool_calls : List ToolCall
  pub stop_reason : String
  pub input_tokens : ℕ
  pub output_tokens : ℕ

pub data Stop : Type 0 where
  complete declined max_steps budget stuck model_error no_action refusal secret_egress : Stop
  blast_radius : Stop

-- The events of one loop; the fields that are the same in all of them (role, agent) are left out.
pub data Event : Type 0 where
  boundary_strip : List String → ℕ → Event
  secret_egress_halt : String → List String → Event
  model_turn : (step : ℕ) → AssistantTurn → String → Event
  task_complete : ℕ → Event
  consent_granted : ℕ → String → Event
  consent_declined : ℕ → String → String → Event
  tool_result : String → String → String → Bool → String → Event
  tool_refusal : String → Refusal → Event
  injection_flag : String → List String → Event
  loop_finished : Stop → ℕ → Event

pub data Detail : Type 0 where
  no_detail : Detail
  decline : (reason counter_proposal : String) → Detail

pub record LoopResult : Type 0 where
  pub stop : Stop
  pub report : String
  pub steps : ℕ
  pub transcript : List Message
  pub detail : Detail

-- `LoopResult.ok`
abbrev pub is_complete : Stop → Bool
is_complete complete = true
is_complete _ = false

-- `_contain`: the text to use, or the kinds of a secret that survived the strip.
pub data Contained : Type 0 where
  passed : String → List String → Contained
  halted : List String → Contained

-- What the loop calls, apart from the registry. `contain` is `Boundary.guard_egress` with the strip
-- map in the world; where the boundary is off it returns the text. The last five print texts.
pub record Outside (W : Type 0) : Type 0 where
  pub model_complete : List Message → List (ToolSpec W) → String → W → AssistantTurn × W
  pub has_budget : Bool
  pub budget_exhausted : W → Bool
  pub budget_charge : ℕ → ℕ → W → W
  pub contain : String → W → Contained × W
  pub to_text : Value → String
  pub halt_text : List String → String
  pub show_failures : List (String × String) → String
  pub distinct_kinds : List String → List String
  pub flag_notice : List String → String

pub record AgentLoop (W : Type 0) : Type 0 where
  pub role : String
  pub agent_name : String
  pub registry : ToolRegistry W
  pub outside : Outside W
  pub max_steps : ℕ
  pub deny_tools : List String
  pub allow_network : Bool
  pub consent_required : Bool

-- The variables of `run`.
pub record State (W : Type 0) : Type 0 where
  pub messages : List Message
  pub errors_in_a_row : ℕ
  pub idle_in_a_row : ℕ
  pub recent_failures : List (String × String)
  pub consented : Bool
  pub events : List Event
  pub world : W

-- A part of the loop either goes on or has returned.
pub data Progress (W : Type 0) : Type 0 where
  goes_on : State W → Progress W
  finished : LoopResult → State W → Progress W

abbrev pub plain : String → String → Message
plain role content = record {
  role = role;
  content = content;
  tool_calls = [];
  tool_call_id = "";
  name = "";
}

abbrev pub text_or : Option Value → (Value → String) → String
text_or none to_text = ""
text_or (some v) to_text = to_text v

-- Whether a result counts toward the stuck streak: a refusal does, also where it is `ok`.
abbrev pub is_failure : Bool → Option Refusal → Bool
is_failure is_ok (some _) = true
is_failure is_ok none = not is_ok

-- The name of a tool and the start of what it said.
abbrev pub Failure : Type 0
Failure = String × String

abbrev pub same_failure : Failure → Failure → Bool
same_failure a b = str_eq a.0 b.0 && str_eq a.1 b.1

module _ {W : Type 0} where
  abbrev pub emit : Event → State W → State W
  emit e s = record s { events = s.events ++ e ∷ [] }

  abbrev pub say : Message → State W → State W
  say m s = record s { messages = s.messages ++ m ∷ [] }

  -- `_finish`
  abbrev pub finish : Stop → String → ℕ → Detail → State W → Progress W
  finish stop report steps detail s =
      let t = emit (loop_finished stop steps) s in
      finished
        (record {
          stop = stop;
          report = report;
          steps = steps;
          transcript = t.messages;
          detail = detail;
        })
        t

  -- The PermissionDenied of the registry becomes a failure with the same refusal.
  abbrev pub after_dispatch : AgentLoop W → String → Dispatched → ToolResult
  after_dispatch loop name (returned res) = res
  after_dispatch loop name (denied r) = refusal_result loop.registry.printing r name

  abbrev pub denied_for_phase : AgentLoop W → String → Refusal
  denied_for_phase loop name = record {
    error = "tool_denied_for_phase";
    boundary = "phase";
    detail = loop.registry.printing.repr name <> " is denied for this phase.";
    why = "Per-phase tool reduction limits the blast radius of untrusted content.";
  }

  abbrev pub caller_of : AgentLoop W → Caller
  caller_of loop = record {
    role = loop.role;
    agent = loop.agent_name;
    allow_network = loop.allow_network;
  }

  -- `_dispatch`
  unfoldable pub dispatch_call : AgentLoop W → Bool → String → Fields → W → ToolResult × W
  dispatch_call loop consented name args w =
      let (out, w') = dispatch loop.registry (caller_of loop) (not consented) name args w in
      if mem name loop.deny_tools
      then (refusal_result loop.registry.printing (denied_for_phase loop name) name, w)
      else (after_dispatch loop name out, w')
