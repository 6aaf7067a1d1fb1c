-- ===== src/Loop/Turns.antt =====
-- One turn and the whole run of harness/loop.py.
use harnessie.Prelude.{
  ℕ, zero, suc, ◌+◌, String, ◌<>◌, List, [], ◌∷◌, ◌++◌, Bool, true, false, not, ◌&&◌, leb,
  if◌then◌else◌, keep, all, mem, str_eq, clip, length,
}
use harnessie.Tools.{ToolSpec, for_role}
use harnessie.Loop.Defs.{
  ToolCall, Message, AssistantTurn, max_steps, budget, stuck, model_error, no_action, refusal,
  secret_egress, secret_egress_halt, model_turn, no_detail, Contained, passed, halted, AgentLoop,
  State, Progress, goes_on, finished, plain, emit, say, finish, Failure, same_failure,
}
use harnessie.Loop.Calls.{
  Called, Mark, succeeded, failed, next_call, returned_in_call, handle_call, stripped, contained,
}

abbrev pub or_else : String → String → String
or_else s t = if str_eq s "" then t else s

-- Three equal failures at the end.
abbrev pub same_last_three : List Failure → Bool
same_last_three [] = false
same_last_three (a ∷ b ∷ c ∷ []) = same_failure a b && same_failure b c
same_last_three (a ∷ rest) = same_last_three rest

abbrev pub all_same : List Failure → Bool
all_same [] = true
all_same (a ∷ rest) = all (same_failure a) rest

abbrev pub first_of_failures : List Failure → Failure
first_of_failures [] = ("", "")
first_of_failures (a ∷ _) = a

abbrev pub last_failure : List Failure → Failure
last_failure [] = ("", "")
last_failure (a ∷ []) = a
last_failure (_ ∷ b ∷ rest) = last_failure (b ∷ rest)

-- `failure` of the turn: the one that all share, or a summary of them.
abbrev pub turn_failure : (List Failure → String) → List Failure → Failure
turn_failure show failures =
    if all_same failures then first_of_failures failures else ("multiple", clip 120 (show failures))

-- What returns inside a call ends the turn; otherwise the next call is made.
abbrev pub then_calls : {W : Type 0} → (Mark → State W → Progress W) → Called W → Progress W
then_calls f (next_call mark s) = f mark s
then_calls f (returned_in_call r s) = finished r s

-- What returns inside a round ends the run; otherwise the next round is made.
abbrev pub then_steps : {W : Type 0} → (State W → Progress W) → Progress W → Progress W
then_steps f (goes_on s) = f s
then_steps f (finished r s) = finished r s

abbrev pub add_failure : Mark → List Failure → List Failure
add_failure (failed f) failures = failures ++ f ∷ []
add_failure _ failures = failures

abbrev pub add_success : Mark → Bool → Bool
add_success succeeded any_success = true
add_success _ any_success = any_success

module _ {W : Type 0} (loop : AgentLoop W) where
  open loop use {role, registry, outside}

  -- Whether the turn's failure was the third of its kind in a row.
  unfoldable pub judge_streak : ℕ → Bool → State W → Progress W
  judge_streak step true s =
      finish stuck
        ("repeated identical failure or refusal on "
          <> ((last_failure s.recent_failures).0
              <> (": " <> clip 200 (last_failure s.recent_failures).1)))
        step no_detail s
  judge_streak step false s = goes_on s

  -- The bookkeeping behind the calls of one turn.
  unfoldable pub after_calls : ℕ → List Failure → Bool → State W → Progress W
  after_calls step failures true s = goes_on (record s { recent_failures = [] })
  after_calls step [] false s = goes_on s
  after_calls step (f ∷ failures) false s =
      let recent = s.recent_failures ++ turn_failure outside.show_failures (f ∷ failures) ∷ [] in
      judge_streak step (leb 3 (length recent) && same_last_three recent)
        (record s { recent_failures = recent })

  -- The calls of one turn, in order; what one of them returns ends the turn.
  unfoldable pub do_calls : ℕ → List ToolCall → List Failure → Bool → State W → Progress W
  do_calls step [] failures any_success s = after_calls step failures any_success s
  do_calls step (tc ∷ tcs) failures any_success s =
      then_calls
        (λ mark t. do_calls step tcs (add_failure mark failures) (add_success mark any_success) t)
        (handle_call loop step tc s)

  -- A turn without a tool call; the flag tells whether it was the second in a row.
  unfoldable pub idle_turn : ℕ → AssistantTurn → Bool → State W → Progress W
  idle_turn step turn true s =
      finish no_action (or_else turn.content "model stopped acting") step no_detail s
  idle_turn step turn false s = goes_on (
      say
        (plain "user" (
          "You produced text but no tool call. If the task is done, call "
          <> ("task_complete with your final report. Otherwise take the next "
              <> "action with a tool call.")))
        s)

  -- What the loop does with the tool calls of a turn, if there are any.
  unfoldable pub act_on : ℕ → AssistantTurn → List ToolCall → State W → Progress W
  act_on step turn [] s =
      idle_turn step turn (leb 2 (s.idle_in_a_row + 1))
        (record s { idle_in_a_row = s.idle_in_a_row + 1 })
  act_on step turn (tc ∷ tcs) s = do_calls step (tc ∷ tcs) [] false (record s { idle_in_a_row = 0 })

  -- A turn that is no refusal and no error.
  unfoldable pub act : ℕ → AssistantTurn → State W → Progress W
  act step turn s = act_on step turn turn.tool_calls (
      say
        (record {
          role = "assistant";
          content = turn.content;
          tool_calls = turn.tool_calls;
          tool_call_id = "";
          name = "";
        })
        (record s { errors_in_a_row = 0 }))

  -- A turn that reports an error; the flag tells whether it was the second in a row.
  unfoldable pub error_turn : ℕ → AssistantTurn → Bool → State W → Progress W
  error_turn step turn true s = finish model_error turn.content step no_detail s
  error_turn step turn false s = goes_on s

  -- What the loop does with a turn of the model: the tests are for a refusal and for an error.
  unfoldable pub turn_of : ℕ → AssistantTurn → Bool → Bool → State W → Progress W
  turn_of step turn true is_error s =
      finish refusal (or_else turn.content "provider safety refusal") step no_detail s
  turn_of step turn false true s =
      error_turn step turn (leb 2 (s.errors_in_a_row + 1))
        (record s { errors_in_a_row = s.errors_in_a_row + 1 })
  turn_of step turn false false s = act step turn s

  unfoldable pub take_turn : ℕ → AssistantTurn → State W → Progress W
  take_turn step turn s =
      turn_of step turn (str_eq turn.stop_reason "refusal") (str_eq turn.stop_reason "error") s

  -- The tools that the model sees.
  abbrev pub offered : List (ToolSpec W)
  offered = keep (λ t. not (mem t.name loop.deny_tools)) (for_role registry role)

  -- The call of the model, and its price.
  abbrev pub ask : String → State W → AssistantTurn × State W
  ask effort s =
      let (turn, w) = outside.model_complete s.messages offered effort s.world in
      let charged = outside.budget_charge turn.input_tokens turn.output_tokens w in
      (turn, record s { world = if outside.has_budget then charged else w })

  -- One round, with the budget tested.
  unfoldable pub round_of : String → ℕ → Bool → State W → Progress W
  round_of effort step true s = finish budget "run budget exhausted" step no_detail s
  round_of effort step false s =
      let (turn, t) = ask effort s in take_turn step turn (emit (model_turn step turn effort) t)

  -- One round of the `for step in ...` loop.
  unfoldable pub one_step : String → ℕ → State W → Progress W
  one_step effort step s =
      round_of effort step (outside.has_budget && outside.budget_exhausted s.world) s

  -- The rounds that are left; behind the last one the step ceiling is reached.
  unfoldable pub steps_from : String → ℕ → ℕ → State W → Progress W
  steps_from effort zero step s =
      finish max_steps "step ceiling reached without task_complete" loop.max_steps no_detail s
  steps_from effort (suc left) step s =
      then_steps (λ t. steps_from effort left (step + 1) t) (one_step effort step s)

  abbrev pub begin : List Message → W → State W
  begin messages w = record {
    messages = messages;
    errors_in_a_row = 0;
    idle_in_a_row = 0;
    recent_failures = [];
    consented = not loop.consent_required;
    events = [];
    world = w;
  }

  -- The run, with the contained task given.
  unfoldable pub start_run : String → String → Contained → State W → Progress W
  start_run system_prompt effort (halted kinds) s =
      finish secret_egress (outside.halt_text kinds) 0 no_detail (
        say (plain "system" system_prompt)
          (emit (secret_egress_halt "" (outside.distinct_kinds kinds)) s))
  start_run system_prompt effort (passed task kinds) s =
      steps_from effort loop.max_steps 1
        (say (plain "user" task) (say (plain "system" system_prompt) (stripped loop kinds s)))

  -- `AgentLoop.run`
  unfoldable pub run : String → String → String → W → Progress W
  run system_prompt task effort w =
      let (c, s) = contained loop task (begin [] w) in start_run system_prompt effort c s
