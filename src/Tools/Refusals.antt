-- ===== src/Tools/Refusals.antt =====
-- The refusals of harness/tools/registry.py, with their texts.
use harnessie.Prelude.{String, ◌<>◌, Option, some, List, [], Bool, false}
use harnessie.Prelude.Values.{Value}

pub record Refusal : Type 0 where
  pub error : String
  pub boundary : String
  pub detail : String
  pub why : String

pub record ToolResult : Type 0 where
  pub is_ok : Bool
  pub content : String
  pub tool_name : String
  pub flags : List String
  pub refusal : Option Refusal

-- Library calls: `json.dumps` of the four texts of a refusal, `repr` of a text and of a value.
pub record Printing : Type 0 where
  pub content : Refusal → String
  pub repr : String → String
  pub repr_value : Value → String

abbrev pub refusal_result : Printing → Refusal → String → ToolResult
refusal_result printing r name = record {
  is_ok = false;
  content = printing.content r;
  tool_name = name;
  flags = [];
  refusal = some r;
}

abbrev pub unknown_tool : Printing → String → Refusal
unknown_tool printing name = record {
  error = "action_unsupported";
  boundary = "allowlist";
  detail =
      "Unknown tool " <> (printing.repr name <> ". Use one of the tools granted to this role.");
  why = "Tool availability is enforced by the harness, not by model choice.";
}

abbrev pub wrong_role : Printing → String → String → Refusal
wrong_role printing role name = record {
  error = "authority_insufficient";
  boundary = "role";
  detail = "Role " <> (printing.repr role <> (" may not call " <> (printing.repr name <> ".")));
  why = "Role permissions keep read, write, and verification authority separate.";
}

abbrev pub no_consent : Printing → String → Refusal
no_consent printing name = record {
  error = "consent_required";
  boundary = "consent";
  detail =
      printing.repr name
      <> (" has side effects and this task has not been accepted. "
          <> "Inspect with read tools if needed, then call accept_task or decline_task.");
  why = "Task packets are offers; mutation requires explicit worker consent.";
}

abbrev pub malformed : Printing → Value → Refusal
malformed printing v = record {
  error = "malformed_arguments";
  boundary = "phase";
  detail =
      "Malformed tool arguments: "
      <> (printing.repr_value v <> ". Re-send valid JSON matching the schema.");
  why = "Tool arguments must be machine-parseable before dispatch.";
}

abbrev pub not_approved : Refusal
not_approved = record {
  error = "approval_required";
  boundary = "approval";
  detail = "Operator approval was not granted for this tool call.";
  why = "Approval-gated tools fail closed unless the operator authorizes them.";
}

abbrev pub bad_arguments : Printing → String → String → Refusal
bad_arguments printing name message = record {
  error = "bad_arguments";
  boundary = "phase";
  detail = "Bad arguments for " <> (printing.repr name <> (": " <> message));
  why = "Schema-shaped calls still need to match the Python tool signature.";
}

abbrev pub tool_exception : Printing → String → String → String → Refusal
tool_exception printing name kind message = record {
  error = "tool_exception";
  boundary = "phase";
  detail = "Tool " <> (printing.repr name <> (" raised " <> (kind <> (": " <> message))));
  why = "Tool failures are surfaced as observations so the loop can fail closed.";
}
