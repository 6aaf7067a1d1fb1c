-- ===== src/Samples/Tools.antt =====
-- A registry with a tool that reads and one that writes; the world counts the writes.
use harnessie.Prelude.{
  ◌&&◌, arith, sym, ℕ, ◌+◌, ◌≡◌, ◌⊎◌, inl, inr, refl, subst, String, none, some, [], ◌∷◌, Bool,
  true, false, Bool-cases, str_eq, lookup, mem,
}
use harnessie.Prelude.Values.{Fields, end, field, str}
use harnessie.Tools.{
  has_side_effects, Printing, value, Caller, ToolSpec, ToolRegistry, returned, dispatch,
}
use harnessie.Tools.Policy.{IsAllowed, called, dispatch-Keeps}

abbrev tool : String → String → String → (ℕ → ℕ) → ToolSpec ℕ
tool name effects role act = record {
  name = name;
  description = "";
  parameters = field "type" (str "object") end;
  fn = λ caller args w. (value "done", act w);
  effects = effects;
  allowed_roles = role ∷ [];
  requires_approval = false;
  role_aware = false;
  quarantine = false;
  provenance = "harness_tool";
}

abbrev pub reader : ToolSpec ℕ
reader = tool "read_file" "read" "worker" (λ w. w)

abbrev pub writer : String → ToolSpec ℕ
writer role = tool "write_file" "write" role (λ w. w + 1)

abbrev pub printing : Printing
printing = record { content = λ r. r.error; repr = λ s. s; repr_value = λ v. "value" }

-- `role` may write.
abbrev pub registry : String → ToolRegistry ℕ
registry role = record {
  tools = ("read_file", reader) ∷ ("write_file", writer role) ∷ [];
  approval_handler = λ name args w. (false, w);
  guard_result = λ out name. (out, []);
  printing = printing;
}

abbrev pub worker : Caller
worker = record { role = "worker"; agent = "w1"; allow_network = false }

lookup-pair :
    {V : Type 0} (k a b : String) (x y s : V)
    → lookup k ((a, x) ∷ (b, y) ∷ []) ≡ some s
    → (x ≡ s) ⊎ (y ≡ s)
lookup-pair k a b x y s h = elim (Bool-cases (str_eq a k)) [
  | inl e ↦ inl (cc (rw e at h))
  | inr e ↦ elim (Bool-cases (str_eq b k)) [
    | inl f ↦ inr (cc (rw (e, f) at h))
    | inr f ↦ absurd (cc (rw (e, f) at h))
  ]
]

-- No write is allowed to a worker where only the orchestrator may write, nor before its consent.
pub worker-reads :
    (role : String) (locked : Bool) (name : String) (args : Fields) (spec : ToolSpec ℕ) (w : ℕ)
    → ((mem "worker" (role ∷ []) ≡ true) → (locked ≡ false) → ⊥)
    → IsAllowed (registry role) worker locked name args spec w
    → w ≡ 0
    → (called (registry role) spec worker args w).1 ≡ 0
worker-reads role locked name args spec w shut allowed p =
    elim (lookup-pair name "read_file" "write_file" reader (writer role) spec allowed.known) [
      | inl e ↦ subst (λ s. (called (registry role) s worker args w).1 ≡ 0) e p
      | inr e ↦ absurd (
          shut (subst (λ s. mem "worker" s.allowed_roles ≡ true) (sym e) allowed.granted) (
            ground (
              arith,
              subst (λ s. (locked && has_side_effects s.effects) ≡ false) (sym e) allowed.consented,
            )))
    ]

worker_may_not_write : dispatch (registry "orchestrator") worker false "read_file" end 0 ≡ (
  returned (record {
    is_ok = true;
    content = "done";
    tool_name = "read_file";
    flags = [];
    refusal = none;
  }),
  0,
)
unfolding dispatch
worker_may_not_write = refl

dispatch-Keeps_example : (dispatch (registry "orchestrator") worker false "write_file" end 0).1 ≡ 0
dispatch-Keeps_example =
    dispatch-Keeps (registry "orchestrator") (λ w. w ≡ 0) worker false "write_file" end 0
      (record {
        handler_keeps = λ args w p. p;
        tool_keeps = λ args spec w allowed p.
            worker-reads "orchestrator" false "write_file" args spec w (λ m l. cc) allowed p;
      })
      refl
