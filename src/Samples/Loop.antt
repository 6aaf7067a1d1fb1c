-- ===== src/Samples/Loop.antt =====
-- A run whose model first tries to write and then completes.
use harnessie.Prelude.{
  mem, ℕ, ◌≡◌, refl, String, List, [], ◌∷◌, Bool, true, false, All, leb, length, str_eq, Bool-cases,
  inl, inr, if◌then◌else◌,
}
use harnessie.Prelude.Values.{end}
use harnessie.Loop.{Message, AssistantTurn, AgentLoop, Outside, passed, run}
use harnessie.Loop.Effects.{WorldKeeps, end_world, run-Keeps, run-Keeps_unconsented}
use harnessie.Samples.Tools.{registry, worker-reads}

abbrev turn_with : String → AssistantTurn
turn_with name = record {
  content = "";
  tool_calls = (record { id = "c1"; name = name; arguments = end }) ∷ [];
  stop_reason = "tool_use";
  input_tokens = 10;
  output_tokens = 5;
}

abbrev model_complete : List Message → AssistantTurn
model_complete ms = if leb 3 (length ms) then turn_with "task_complete" else turn_with "write_file"

abbrev outside : Outside ℕ
outside = record {
  model_complete = λ ms tools effort w. (model_complete ms, w);
  has_budget = false;
  budget_exhausted = λ w. false;
  budget_charge = λ m n w. w;
  contain = λ text w. (passed text [], w);
  to_text = λ v. "value";
  halt_text = λ kinds. "secret";
  show_failures = λ failures. "failures";
  distinct_kinds = λ kinds. kinds;
  flag_notice = λ flags. "notice";
}

-- `role` may write; the loop's role is the worker.
abbrev loop : String → Bool → AgentLoop ℕ
loop role consent = record {
  role = "worker";
  agent_name = "w1";
  registry = registry role;
  outside = outside;
  max_steps = 5;
  deny_tools = [];
  allow_network = false;
  consent_required = consent;
}

model-no_accept :
    (ms : List Message)
    → All (λ tc. str_eq tc.name "accept_task" ≡ false) (model_complete ms).tool_calls
model-no_accept ms = elim (Bool-cases (leb 3 (length ms))) [
  | inl e ↦ rw e (refl, tt)
  | inr e ↦ rw e (refl, tt)
]

loop-WorldKeeps :
    (role : String) (consent locked : Bool)
    → ((mem "worker" (role ∷ []) ≡ true) → (locked ≡ false) → ⊥)
    → WorldKeeps (loop role consent) (λ w. w ≡ 0) locked
loop-WorldKeeps role consent locked shut = record {
  model_keeps = λ ms tools effort w p. p;
  charge_keeps = λ m n w p. p;
  contain_keeps = λ text w p. p;
  handler_keeps = λ name args w p. p;
  tool_keeps =
      λ name args spec w allowed denied p. worker-reads role locked name args spec w shut allowed p;
  never_accepts = λ ms tools effort w l. model-no_accept ms;
}

run-Keeps_example : end_world (run (loop "orchestrator" false) "system" "task" "low" 0) ≡ 0
run-Keeps_example =
    run-Keeps (loop "orchestrator" false) (λ w. w ≡ 0) "system" "task" "low" 0
      (loop-WorldKeeps "orchestrator" false false (λ m l. cc)) refl

run-Keeps_unconsented_example : end_world (run (loop "worker" true) "system" "task" "low" 0) ≡ 0
run-Keeps_unconsented_example =
    run-Keeps_unconsented (loop "worker" true) (λ w. w ≡ 0) "system" "task" "low" 0 refl
      (loop-WorldKeeps "worker" true true (λ m l. cc)) refl
