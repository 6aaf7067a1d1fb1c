-- ===== src/Tools.antt =====
-- harness/tools/registry.py: the tool registry and its policy at dispatch.
-- `W` is the world that a tool may change: files, processes, the network, events that tools emit.
mod Refusals
pub mod Policy
unfoldable pub use Refusals.*
use harnessie.Prelude.{
  ℕ, zero, suc, ◌≡◌, String, ◌<>◌, Option, none, some, List, [], ◌∷◌, ◌++◌, Bool, true, false, not,
  ◌&&◌, ◌||◌, if◌then◌else◌, all, any, keep, mem, lookup, str_eq, Result, ok, raise, raise_if, ◌>>◌,
  ◌>>=◌, map,
}
use harnessie.Prelude.Values.{Value, str, Fields, get}

-- What a call of a tool's function comes to. `value` holds `str(out)`.
pub data Outcome : Type 0 where
  value : String → Outcome
  refusal_value : Refusal → Outcome
  tool_refusal : Refusal → Outcome
  type_error : String → Outcome
  other_error : String → String → Outcome

-- `_role`, `_agent` and `_allow_network`, for a tool that is role-aware.
pub record Caller : Type 0 where
  pub role : String
  pub agent : String
  pub allow_network : Bool

pub record ToolSpec (W : Type 0) : Type 0 where
  pub name : String
  pub description : String
  pub parameters : Fields
  pub fn : Option Caller → Fields → W → Outcome × W
  pub effects : String
  pub allowed_roles : List String
  pub requires_approval : Bool
  pub role_aware : Bool
  pub quarantine : Bool
  pub provenance : String

-- What `dispatch` comes to: a result, or a PermissionDenied that carries its refusal.
pub data Dispatched : Type 0 where
  returned : ToolResult → Dispatched
  denied : Refusal → Dispatched

pub record ToolRegistry (W : Type 0) : Type 0 where
  pub tools : List (String × ToolSpec W)
  pub approval_handler : String → Fields → W → Bool × W
  -- harness/quarantine.py: the content to show, and the findings
  pub guard_result : String → String → String × List String
  pub printing : Printing

abbrev pub known_roles : List String
known_roles = "orchestrator" ∷ "worker" ∷ "verifier" ∷ []

abbrev pub has_side_effects : String → Bool
has_side_effects effects = mem effects ("write" ∷ "execute" ∷ [])

pub data RegisterError : Type 0 where
  duplicate_name bad_effects bad_roles bad_parameters empty_provenance : String → RegisterError

abbrev is_some {ℓ} : {A : Type ℓ} → Option A → Bool
is_some none = false
is_some (some _) = true

abbrev is_object_schema : Option Value → Bool
is_object_schema (some (str t)) = str_eq t "object"
is_object_schema _ = false

abbrev is_nonempty : List String → Bool
is_nonempty [] = false
is_nonempty (_ ∷ _) = true

module _ {W : Type 0} where
  -- `ToolRegistry.register`
  unfoldable pub register : ToolSpec W → ToolRegistry W → Result RegisterError (ToolRegistry W)
  register spec reg = do
    raise_if (is_some (lookup spec.name reg.tools)) (duplicate_name spec.name)
    raise_if (not (mem spec.effects ("read" ∷ "write" ∷ "execute" ∷ []))) (bad_effects spec.name)
    raise_if
        (not (is_nonempty spec.allowed_roles && all (λ r. mem r known_roles) spec.allowed_roles))
        (bad_roles spec.name)
    raise_if (not (is_object_schema (get "type" spec.parameters))) (bad_parameters spec.name)
    raise_if (str_eq spec.provenance "") (empty_provenance spec.name)
    ok (record reg { tools = reg.tools ++ (spec.name, spec) ∷ [] })

  unfoldable pub provenance_for : ToolRegistry W → String → String
  provenance_for reg name = elim (lookup name reg.tools) [
    | none ↦ "unknown"
    | some spec ↦ spec.provenance
  ]

  -- `for_role`, and the names of `schemas`: what the model is shown.
  unfoldable pub for_role : ToolRegistry W → String → List (ToolSpec W)
  for_role reg role = keep (λ t. mem role t.allowed_roles) (map (λ entry. entry.1) reg.tools)

  -- The result of a value that the function returned, through the quarantine if the tool asks.
  abbrev show_value : ToolRegistry W → ToolSpec W → String → String → ToolResult
  show_value reg spec name out =
      let guarded = reg.guard_result out name in
      if spec.quarantine
      then (record {
        is_ok = true;
        content = guarded.0;
        tool_name = name;
        flags = guarded.1;
        refusal = none;
      })
      else (record { is_ok = true; content = out; tool_name = name; flags = []; refusal = none })

  -- The part of `dispatch` behind the call of the tool's function.
  settle : ToolRegistry W → ToolSpec W → String → Outcome → ToolResult
  settle reg spec name (value out) = show_value reg spec name out
  settle reg spec name (refusal_value r) = record {
    is_ok = true;
    content = reg.printing.content r;
    tool_name = name;
    flags = [];
    refusal = some r;
  }
  settle reg spec name (tool_refusal r) = refusal_result reg.printing r name
  settle reg spec name (type_error message) =
      refusal_result reg.printing (bad_arguments reg.printing name message) name
  settle reg spec name (other_error kind message) =
      refusal_result reg.printing (tool_exception reg.printing name kind message) name

  -- The call of the tool's function.
  run_tool : ToolRegistry W → ToolSpec W → Caller → String → Fields → W → Dispatched × W
  unfolding settle
  run_tool reg spec caller name args w =
      let (outcome, w') = spec.fn (if spec.role_aware then some caller else none) args w in
      (returned (settle reg spec name outcome), w')

  -- Approval, and then the call.
  run_approved : ToolRegistry W → ToolSpec W → Caller → String → Fields → W → Dispatched × W
  unfolding run_tool
  run_approved reg spec caller name args w =
      let (approved, w') = reg.approval_handler name args w in
      if spec.requires_approval
      then (if approved
          then run_tool reg spec caller name args w'
          else (returned (refusal_result reg.printing not_approved name), w'))
      else run_tool reg spec caller name args w

  -- Arguments that were no JSON arrive under the key `_malformed`.
  run_formed :
      ToolRegistry W → ToolSpec W → Caller → String → Fields → W → Option Value → Dispatched × W
  unfolding run_approved
  run_formed reg spec caller name args w (some v) =
      (returned (refusal_result reg.printing (malformed reg.printing v) name), w)
  run_formed reg spec caller name args w none = run_approved reg spec caller name args w

  -- The tests of `dispatch` before the approval, in the code's order.
  dispatch_to :
      ToolRegistry W → Caller → Bool → String → Fields → W → Option (ToolSpec W) → Dispatched × W
  unfolding run_formed
  dispatch_to reg caller locked name args w none =
      (returned (refusal_result reg.printing (unknown_tool reg.printing name) name), w)
  dispatch_to reg caller locked name args w (some spec) =
      if not (mem caller.role spec.allowed_roles)
      then (denied (wrong_role reg.printing caller.role name), w)
      else if locked && has_side_effects spec.effects
      then (returned (refusal_result reg.printing (no_consent reg.printing name) name), w)
      else run_formed reg spec caller name args w (get "_malformed" args)

  -- `ToolRegistry.dispatch`; `locked` is `side_effects_locked`.
  unfoldable pub dispatch : ToolRegistry W → Caller → Bool → String → Fields → W → Dispatched × W
  unfolding dispatch_to
  dispatch reg caller locked name args w =
      dispatch_to reg caller locked name args w (lookup name reg.tools)
