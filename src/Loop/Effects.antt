-- ===== src/Loop/Effects.antt =====
-- What a run of harness/loop.py may do to the world.
use harnessie.Prelude.{
  ℕ, zero, suc, ◌+◌, ◌≡◌, String, List, [], ◌∷◌, Bool, true, false, not, arith, All, mem, str_eq,
  Bool-cases, inl, inr,
}
use harnessie.Prelude.Values.{Fields}
use harnessie.Tools.{ToolSpec, ToolResult}
use harnessie.Tools.Policy.{IsAllowed, called, dispatch-Keeps}
use harnessie.Loop.Defs.{
  ToolCall, Message, AssistantTurn, AgentLoop, State, Progress, goes_on, finished, Contained,
  passed, halted, caller_of, dispatch_call,
}
use harnessie.Loop.Calls.{
  Mark, Called, next_call, returned_in_call, enter_context, settle_result, after_result,
  complete_call, accept_call, decline_call, tool_call, handle_call,
}
use harnessie.Loop.Turns.{
  then_calls, add_success, then_steps, add_failure, ask, offered, after_calls, do_calls,
  judge_streak, idle_turn, act_on, act, error_turn, turn_of, take_turn, round_of, one_step,
  steps_from, start_run, run,
}

module _ {W : Type 0} (loop : AgentLoop W) (P : W → Type 0) (locked : Bool) where
  open loop use {registry, outside, deny_tools}

  -- `P` is kept by everything that the run may do; with `locked` true the model never calls
  -- `accept_task`, and then only tools without side effects may be run.
  pub record WorldKeeps : Type 0 where
    pub model_keeps :
        (ms : List Message) (tools : List (ToolSpec W)) (effort : String) (w : W)
        → P w
        → P (outside.model_complete ms tools effort w).1
    pub charge_keeps : (m n : ℕ) (w : W) → P w → P (outside.budget_charge m n w)
    pub contain_keeps : (text : String) (w : W) → P w → P (outside.contain text w).1
    pub handler_keeps :
        (name : String) (args : Fields) (w : W) → P w → P (registry.approval_handler name args w).1
    pub tool_keeps :
        (name : String) (args : Fields) (spec : ToolSpec W) (w : W)
        → IsAllowed registry (caller_of loop) locked name args spec w
        → mem name deny_tools ≡ false
        → P w
        → P (called registry spec (caller_of loop) args w).1
    pub never_accepts :
        (ms : List Message) (tools : List (ToolSpec W)) (effort : String) (w : W)
        → locked ≡ true
        → All
            (λ tc. str_eq tc.name "accept_task" ≡ false)
            (outside.model_complete ms tools effort w).0.tool_calls

  -- What holds of the state between two parts of the loop.
  abbrev Inv : State W → Type 0
  Inv s = P s.world × (locked ≡ true → s.consented ≡ false)

  abbrev InvCalled : Called W → Type 0
  InvCalled (next_call _ s) = Inv s
  InvCalled (returned_in_call _ s) = Inv s

  abbrev InvProgress : Progress W → Type 0
  InvProgress (goes_on s) = Inv s
  InvProgress (finished _ s) = Inv s

  -- A part of the loop has kept it, whether it goes on or has returned.
  record Kept (out : Progress W) : Type 0 where
    holds : InvProgress out

  weaken-IsAllowed :
      (consented : Bool) {name : String} {args : Fields} {spec : ToolSpec W} {w : W}
      → (locked ≡ true → consented ≡ false)
      → IsAllowed registry (caller_of loop) (not consented) name args spec w
      → IsAllowed registry (caller_of loop) locked name args spec w
  weaken-IsAllowed consented h a = record {
    known = a.known;
    granted = a.granted;
    consented = ground (arith, a.consented);
    well_formed = a.well_formed;
    approved = a.approved;
  }

  module _ (k : WorldKeeps) where
    dispatch_call-Keeps :
        (consented : Bool) (name : String) (args : Fields) (w : W)
        → (locked ≡ true → consented ≡ false)
        → P w
        → P (dispatch_call loop consented name args w).1
    unfolding dispatch_call
    dispatch_call-Keeps consented name args w h p = elim (Bool-cases (mem name deny_tools)) [
      | inl shut ↦ rw shut p
      | inr open_here ↦ rw open_here (
          dispatch-Keeps registry P (caller_of loop) (not consented) name args w
            (record {
              handler_keeps = λ a w' p'. k.handler_keeps name a w' p';
              tool_keeps = λ a spec w' allowed p'.
                  k.tool_keeps name a spec w' (weaken-IsAllowed consented h allowed) open_here p';
            })
            p)
    ]

    enter_context-Keeps :
        (step : ℕ) (tc : ToolCall) (res : ToolResult) (c : Contained) (s : State W)
        → Inv s
        → InvCalled (enter_context loop step tc res c s)
    unfolding enter_context
    enter_context-Keeps step tc res (passed content kinds) s h = h
    enter_context-Keeps step tc res (halted kinds) s h = h

    settle_result-Keeps :
        (step : ℕ) (tc : ToolCall) (res : ToolResult) (b : Bool) (s : State W)
        → Inv s
        → InvCalled (settle_result loop step tc res b s)
    unfolding settle_result
    settle_result-Keeps step tc res true s h = h
    settle_result-Keeps step tc res false s h =
        let (c, w) = outside.contain res.content s.world in
        enter_context-Keeps step tc res c (record s { world = w })
          (k.contain_keeps res.content s.world h.0, h.1)

    tool_call-Keeps :
        (step : ℕ) (tc : ToolCall) (s : State W) → Inv s → InvCalled (tool_call loop step tc s)
    unfolding tool_call after_result
    tool_call-Keeps step tc s h =
        settle_result-Keeps step tc (dispatch_call loop s.consented tc.name tc.arguments s.world).0
          _ _ (dispatch_call-Keeps s.consented tc.name tc.arguments s.world h.1 h.0, h.1)

    accept_call-Keeps :
        (step : ℕ) (tc : ToolCall) (s : State W)
        → (locked ≡ true → ⊥)
        → Inv s
        → InvCalled (accept_call loop step tc s)
    unfolding accept_call
    accept_call-Keeps step tc s unlocked h = (h.0, λ e. absurd (unlocked e))

    complete_call-Keeps :
        (step : ℕ) (tc : ToolCall) (s : State W) → Inv s → InvCalled (complete_call loop step tc s)
    unfolding complete_call
    complete_call-Keeps step tc s h = h

    decline_call-Keeps :
        (step : ℕ) (tc : ToolCall) (s : State W) → Inv s → InvCalled (decline_call loop step tc s)
    unfolding decline_call
    decline_call-Keeps step tc s h = h

    handle_call-Keeps :
        (step : ℕ) (tc : ToolCall) (s : State W)
        → (locked ≡ true → str_eq tc.name "accept_task" ≡ false)
        → Inv s
        → InvCalled (handle_call loop step tc s)
    handle_call-Keeps step tc s no_accept h = elim (Bool-cases (str_eq tc.name "task_complete")) [
      | inl e ↦ unfold handle_call in rw e (complete_call-Keeps step tc s h)
      | inr e ↦ elim (Bool-cases (str_eq tc.name "accept_task")) [
        | inl f ↦
            unfold handle_call in rw (e, f) (accept_call-Keeps step tc s (λ l. cc (no_accept l)) h)
        | inr f ↦ elim (Bool-cases (str_eq tc.name "decline_task")) [
          | inl g ↦ unfold handle_call in rw (e, f, g) (decline_call-Keeps step tc s h)
          | inr g ↦ unfold handle_call in rw (e, f, g) (tool_call-Keeps step tc s h)
        ]
      ]
    ]

    then_calls-Keeps :
        (f : Mark → State W → Progress W) (out : Called W)
        → ((mark : Mark) (t : State W) → Inv t → Kept (f mark t))
        → InvCalled out
        → Kept (then_calls f out)
    then_calls-Keeps f (next_call mark t) g h = g mark t h
    then_calls-Keeps f (returned_in_call r t) g h = record { holds = h }

    then_steps-Keeps :
        (f : State W → Progress W) (out : Progress W)
        → ((t : State W) → Inv t → Kept (f t))
        → Kept out
        → Kept (then_steps f out)
    then_steps-Keeps f (goes_on t) g h = g t h.holds
    then_steps-Keeps f (finished r t) g h = record { holds = h.holds }

    judge_streak-Keeps :
        (step : ℕ) (b : Bool) (s : State W) → Inv s → Kept (judge_streak loop step b s)
    unfolding judge_streak
    judge_streak-Keeps step true s h = record { holds = h }
    judge_streak-Keeps step false s h = record { holds = h }

    after_calls-Keeps :
        (step : ℕ) (failures : List (String × String)) (any_success : Bool) (s : State W)
        → Inv s
        → Kept (after_calls loop step failures any_success s)
    unfolding after_calls
    after_calls-Keeps step failures true s h = record { holds = h }
    after_calls-Keeps step [] false s h = record { holds = h }
    after_calls-Keeps step (f ∷ failures) false s h = judge_streak-Keeps step _ _ h

    do_calls-Keeps :
        (step : ℕ) (tcs : List ToolCall) (failures : List (String × String)) (any_success : Bool)
        (s : State W)
        → (locked ≡ true → All (λ tc. str_eq tc.name "accept_task" ≡ false) tcs)
        → Inv s
        → Kept (do_calls loop step tcs failures any_success s)
    unfolding do_calls
    do_calls-Keeps step [] failures any_success s no_accept h =
        after_calls-Keeps step failures any_success s h
    do_calls-Keeps step (tc ∷ tcs) failures any_success s no_accept h =
        then_calls-Keeps _ (handle_call loop step tc s)
          (λ mark t h'.
            do_calls-Keeps step tcs (add_failure mark failures) (add_success mark any_success) t
              (λ l. (no_accept l).1) h')
          (handle_call-Keeps step tc s (λ l. (no_accept l).0) h)

    idle_turn-Keeps :
        (step : ℕ) (turn : AssistantTurn) (b : Bool) (s : State W)
        → Inv s
        → Kept (idle_turn loop step turn b s)
    unfolding idle_turn
    idle_turn-Keeps step turn true s h = record { holds = h }
    idle_turn-Keeps step turn false s h = record { holds = h }

    act_on-Keeps :
        (step : ℕ) (turn : AssistantTurn) (tcs : List ToolCall) (s : State W)
        → (locked ≡ true → All (λ tc. str_eq tc.name "accept_task" ≡ false) tcs)
        → Inv s
        → Kept (act_on loop step turn tcs s)
    unfolding act_on
    act_on-Keeps step turn [] s no_accept h = idle_turn-Keeps step turn _ _ h
    act_on-Keeps step turn (tc ∷ tcs) s no_accept h =
        do_calls-Keeps step (tc ∷ tcs) [] false _ no_accept h

    error_turn-Keeps :
        (step : ℕ) (turn : AssistantTurn) (b : Bool) (s : State W)
        → Inv s
        → Kept (error_turn loop step turn b s)
    unfolding error_turn
    error_turn-Keeps step turn true s h = record { holds = h }
    error_turn-Keeps step turn false s h = record { holds = h }

    turn_of-Keeps :
        (step : ℕ) (turn : AssistantTurn) (is_refusal is_error : Bool) (s : State W)
        → (locked ≡ true → All (λ tc. str_eq tc.name "accept_task" ≡ false) turn.tool_calls)
        → Inv s
        → Kept (turn_of loop step turn is_refusal is_error s)
    unfolding turn_of act
    turn_of-Keeps step turn true is_error s no_accept h = record { holds = h }
    turn_of-Keeps step turn false true s no_accept h = error_turn-Keeps step turn _ _ h
    turn_of-Keeps step turn false false s no_accept h =
        act_on-Keeps step turn turn.tool_calls _ no_accept h

    ask-Keeps : (effort : String) (s : State W) → Inv s → Inv (ask loop effort s).1
    ask-Keeps effort s h =
        let asked = k.model_keeps s.messages (offered loop) effort s.world h.0 in
        elim (Bool-cases outside.has_budget) [
          | inl e ↦ (rw e (k.charge_keeps _ _ _ asked), h.1)
          | inr e ↦ (rw e asked, h.1)
        ]

    round_of-Keeps :
        (effort : String) (step : ℕ) (b : Bool) (s : State W)
        → Inv s
        → Kept (round_of loop effort step b s)
    unfolding round_of take_turn
    round_of-Keeps effort step true s h = record { holds = h }
    round_of-Keeps effort step false s h =
        turn_of-Keeps step (ask loop effort s).0 _ _ _
          (λ l. k.never_accepts s.messages (offered loop) effort s.world l) (ask-Keeps effort s h)

    one_step-Keeps :
        (effort : String) (step : ℕ) (s : State W) → Inv s → Kept (one_step loop effort step s)
    unfolding one_step
    one_step-Keeps effort step s h = round_of-Keeps effort step _ s h

    steps_from-Keeps :
        (effort : String) (left step : ℕ) (s : State W)
        → Inv s
        → Kept (steps_from loop effort left step s)
    unfolding steps_from
    steps_from-Keeps effort zero step s h = record { holds = h }
    steps_from-Keeps effort (suc left) step s h =
        then_steps-Keeps _ (one_step loop effort step s)
          (λ t h'. steps_from-Keeps effort left (step + 1) t h') (one_step-Keeps effort step s h)

    start_run-Keeps :
        (system_prompt effort : String) (c : Contained) (s : State W)
        → Inv s
        → Kept (start_run loop system_prompt effort c s)
    unfolding start_run
    start_run-Keeps system_prompt effort (halted kinds) s h = record { holds = h }
    start_run-Keeps system_prompt effort (passed task kinds) s h =
        steps_from-Keeps effort loop.max_steps 1 _ h

    run-Kept :
        (system_prompt task effort : String) (w : W)
        → (locked ≡ true → loop.consent_required ≡ true)
        → P w
        → Kept (run loop system_prompt task effort w)
    unfolding run
    run-Kept system_prompt task effort w consent p =
        start_run-Keeps system_prompt effort _ _
          (k.contain_keeps task w p, λ l. ground (arith, consent l))

-- The world that a run leaves.
abbrev pub end_world : {W : Type 0} → Progress W → W
end_world (goes_on s) = s.world
end_world (finished _ s) = s.world

module _ {W : Type 0} (loop : AgentLoop W) (P : W → Type 0) where
  kept_world : (locked : Bool) (out : Progress W) → Kept loop P locked out → P (end_world out)
  kept_world locked (goes_on s) h = h.holds.0
  kept_world locked (finished r s) h = h.holds.0

  -- A run keeps every property of the world that is kept by the model's call, the budget, the
  -- boundary, the operator's approval handler, and each tool that the role is granted and the phase
  -- does not deny: no other tool is ever run.
  pub run-Keeps :
      (system_prompt task effort : String) (w : W)
      → WorldKeeps loop P false
      → P w
      → P (end_world (run loop system_prompt task effort w))
  run-Keeps system_prompt task effort w k p =
      kept_world false _ (run-Kept loop P false k system_prompt task effort w (λ l. cc) p)

  -- Where consent is required and the model never calls `accept_task`, a run keeps every property that
  -- is kept by the same outside calls and by the tools without side effects: no tool with side effects
  -- is ever run.
  pub run-Keeps_unconsented :
      (system_prompt task effort : String) (w : W)
      → loop.consent_required ≡ true
      → WorldKeeps loop P true
      → P w
      → P (end_world (run loop system_prompt task effort w))
  run-Keeps_unconsented system_prompt task effort w consent k p =
      kept_world true _ (run-Kept loop P true k system_prompt task effort w (λ l. consent) p)
