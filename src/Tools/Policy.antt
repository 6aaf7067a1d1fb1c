-- ===== src/Tools/Policy.antt =====
-- What `Registry.dispatch` of harness/tools/registry.py lets a call do to the world.
use harnessie.Prelude.{
  ◌≡◌, refl, String, Option, none, some, Bool, true, false, ◌&&◌, if◌then◌else◌, mem, lookup,
  Bool-cases, inl, inr, ◌⊎◌,
}
use harnessie.Prelude.Values.{Value, Fields, get}
use harnessie.Tools.{
  Outcome, Caller, ToolSpec, ToolRegistry, has_side_effects, dispatch, dispatch_to, run_formed,
  run_approved, run_tool,
}

module _ {W : Type 0} (reg : ToolRegistry W) where
  -- The operator's handler was asked about the call and granted it, and left the world `w`.
  abbrev pub Granted : String → Fields → W → Type 0
  Granted name args w = (asked_in : W) × (reg.approval_handler name args asked_in ≡ (true, w))

  -- What must hold for a tool to be run for this caller, in the world `w`.
  pub record IsAllowed (caller : Caller) (locked : Bool) (name : String) (args : Fields)
      (spec : ToolSpec W) (w : W) : Type 0 where
    pub known : lookup name reg.tools ≡ some spec
    pub granted : mem caller.role spec.allowed_roles ≡ true
    pub consented : (locked && has_side_effects spec.effects) ≡ false
    pub well_formed : get "_malformed" args ≡ none
    pub approved : (spec.requires_approval ≡ false) ⊎ Granted name args w

  -- The call of the tool's function from the world that the operator's decision left.
  abbrev pub called : ToolSpec W → Caller → Fields → W → Outcome × W
  called spec caller args w = spec.fn (if spec.role_aware then some caller else none) args w

  -- Keeping a property of the world through the approval handler and through the tool of this name,
  -- where it is allowed.
  pub record PolicyKeeps (P : W → Type 0) (caller : Caller) (locked : Bool) (name : String)
      : Type 0 where
    pub handler_keeps : (args : Fields) (w : W) → P w → P (reg.approval_handler name args w).1
    pub tool_keeps :
        (args : Fields) (spec : ToolSpec W) (w : W)
        → IsAllowed caller locked name args spec w
        → P w
        → P (called spec caller args w).1

  -- The approval of a call that asks for it, and any of one that does not.
  abbrev Approved : ToolSpec W → String → Fields → W → Type 0
  Approved spec name args w = (spec.requires_approval ≡ false) ⊎ Granted name args w

  approval_handler-Granted :
      (name : String) (args : Fields) (w : W) (answer : Bool × W)
      → reg.approval_handler name args w ≡ answer
      → answer.0 ≡ true
      → Granted name args answer.1
  approval_handler-Granted name args w (true, w') e h = (w, e)
  approval_handler-Granted name args w (false, w') e h = absurd (cc)

  run_approved-Keeps :
      (P : W → Type 0) (spec : ToolSpec W) (caller : Caller) (name : String) (args : Fields) (w : W)
      → P (reg.approval_handler name args w).1
      → ((w' : W) → Approved spec name args w' → P w' → P (called spec caller args w').1)
      → P w
      → P (run_approved reg spec caller name args w).1
  unfolding run_approved run_tool
  run_approved-Keeps P spec caller name args w h k p = elim (Bool-cases spec.requires_approval) [
    | inl asks ↦ rw asks (elim (Bool-cases (reg.approval_handler name args w).0) [
      | inl granted ↦ rw granted (k _ (inr (approval_handler-Granted name args w _ refl granted)) h)
      | inr refused ↦ rw refused h
    ])
    | inr free ↦ rw free (k w (inl free) p)
  ]

  run_formed-Keeps :
      (P : W → Type 0) (spec : ToolSpec W) (caller : Caller) (name : String) (args : Fields) (w : W)
      (bad : Option Value)
      → P (reg.approval_handler name args w).1
      → (bad ≡ none
          → (w' : W) → Approved spec name args w'
          → P w'
          → P (called spec caller args w').1)
      → P w
      → P (run_formed reg spec caller name args w bad).1
  unfolding run_formed
  run_formed-Keeps P spec caller name args w (some v) h k p = p
  run_formed-Keeps P spec caller name args w none h k p =
      run_approved-Keeps P spec caller name args w h (k refl) p

  dispatch_to-Keeps :
      (P : W → Type 0) (caller : Caller) (locked : Bool) (name : String) (args : Fields) (w : W)
      (found : Option (ToolSpec W))
      → lookup name reg.tools ≡ found
      → PolicyKeeps P caller locked name
      → P w
      → P (dispatch_to reg caller locked name args w found).1
  unfolding dispatch_to
  dispatch_to-Keeps P caller locked name args w none e k p = p
  dispatch_to-Keeps P caller locked name args w (some spec) e k p =
      elim (Bool-cases (mem caller.role spec.allowed_roles)) [
        | inr wrong ↦ rw wrong p
        | inl granted ↦ rw granted (elim (Bool-cases (locked && has_side_effects spec.effects)) [
          | inl shut ↦ rw shut p
          | inr consented ↦ rw consented (
              run_formed-Keeps P spec caller name args w (get "_malformed" args)
                (k.handler_keeps args w p)
                (λ formed w' approved p'.
                  k.tool_keeps args spec w'
                    (record {
                      known = e;
                      granted = granted;
                      consented = consented;
                      well_formed = formed;
                      approved = approved;
                    })
                    p')
                p)
        ])
      ]

  -- Whatever a dispatch does to the world, it does by the operator's approval handler and by a tool
  -- that is registered, granted to the role, consented to if it has side effects, well called, and, if it
  -- asks for approval, called in the world that the handler left when it granted this very call.
  pub dispatch-Keeps :
      (P : W → Type 0) (caller : Caller) (locked : Bool) (name : String) (args : Fields) (w : W)
      → PolicyKeeps P caller locked name
      → P w
      → P (dispatch reg caller locked name args w).1
  unfolding dispatch
  dispatch-Keeps P caller locked name args w k p =
      dispatch_to-Keeps P caller locked name args w (lookup name reg.tools) refl k p
