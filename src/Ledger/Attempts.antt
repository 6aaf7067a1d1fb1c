-- ===== src/Ledger/Attempts.antt =====
-- The life of an attempt: `reserve`, `dispatched` and `finish`.
use harnessie.Prelude.{
  ℕ, ◌+◌, String, Option, none, some, List, [], ◌∷◌, Bool, true, false, not, ◌||◌, if◌then◌else◌,
  ltb, leb, ◌==◌, mem, index, str_eq,
}
use harnessie.Prelude.Values.{Value, obj, boolean, Fields, get}
use harnessie.Ledger.Receipts.{usage_from, haiku_usage}
use harnessie.Ledger.Defs.{
  Usage, total, add_usage, LedgerLimits, AttemptState, reserved, dispatched, Attempt, reserve_entry,
  dispatched_entry, receipt_entry, finish_entry, RunLedger, Step, done, refused, then_do, Disk,
  append, halt, halt_and_refuse, halted_if, refused_if,
}

abbrev pub stages : List String
stages = "claude:position" ∷ "qwen:position" ∷ "claude:objection" ∷ "qwen:objection" ∷ []

abbrev participant_of_stage : String → String
participant_of_stage stage =
    if mem stage ("claude:position" ∷ "claude:objection" ∷ []) then "claude" else "qwen"

abbrev pub bump : String → (String → ℕ) → String → ℕ
bump key f k = if str_eq key k then f k + 1 else f k

abbrev pub is_active : Option Attempt → Bool
is_active none = false
is_active (some _) = true

abbrev same_state : AttemptState → AttemptState → Bool
same_state reserved reserved = true
same_state dispatched dispatched = true
same_state _ _ = false

module _ (disk : Disk) (limits : LedgerLimits) where
  -- The writes of `reserve`, behind its tests.
  unfoldable pub begin_attempt : String → String → ℕ → RunLedger → Step
  begin_attempt stage participant i s =
      then_do (append disk (reserve_entry (s.sequence + 1) stage participant) s) (λ t.
        done (record t {
          active = some (record {
            id = s.sequence + 1;
            stage = stage;
            participant = participant;
            state = reserved;
          });
          calls = bump participant t.calls;
          stage_calls = bump stage t.stage_calls;
          stages_begun = if ltb t.stages_begun (i + 1) then i + 1 else t.stages_begun;
        }))

  -- The ceilings that `reserve` tests, in the code's order.
  unfoldable pub within_ceilings : String → String → ℕ → RunLedger → Step
  within_ceilings stage participant i s =
      halted_if disk (leb limits.total_tokens (total s.usage)) "total_token_budget_exceeded" s (
        halted_if disk (leb limits.haiku_input_tokens s.haiku_input_tokens)
          "haiku_input_budget_exceeded" s
          (halted_if disk (leb limits.haiku_output_tokens s.haiku_output_tokens)
            "haiku_output_budget_exceeded" s
            (halted_if disk (leb (limits.calls participant) (s.calls participant))
              "participant_call_budget_exhausted" s
              (halted_if disk (leb limits.calls_per_stage (s.stage_calls stage))
                "stage_call_budget_exhausted" s (begin_attempt stage participant i s)))))

  unfoldable pub reserve_at : String → String → Option ℕ → RunLedger → Step
  reserve_at stage participant none s = refused "ledger_stage_invalid" s
  reserve_at stage participant (some i) s =
      refused_if (not (str_eq (participant_of_stage stage) participant))
        "ledger_participant_mismatch" s
        (refused_if (ltb (i + 1) s.stages_begun || ltb s.stages_begun i)
          "ledger_stage_order_invalid" s (within_ceilings stage participant i s))

  -- `reserve`
  unfoldable pub reserve : String → String → RunLedger → Step
  reserve stage participant s = refused_if (s.closed || s.halted) "ledger_halted" s (
      refused_if (is_active s.active) "ledger_attempt_active" s (
        refused_if (not (mem participant ("claude" ∷ "qwen" ∷ []))) "ledger_stage_invalid" s
          (reserve_at stage participant (index stage stages) s)))

  unfoldable pub with_active :
      ℕ → AttemptState → Option Attempt → RunLedger → (Attempt → Step) → Step
  with_active attempt_id state none s k = refused "ledger_attempt_invalid" s
  with_active attempt_id state (some a) s k =
      refused_if (not (a.id == attempt_id)) "ledger_attempt_invalid" s
        (refused_if (not (same_state a.state state)) "ledger_attempt_state_invalid" s (k a))

  -- `_require_active`
  unfoldable pub require_active : ℕ → AttemptState → RunLedger → (Attempt → Step) → Step
  require_active attempt_id state s k =
      refused_if (s.closed || s.halted) "ledger_halted" s
        (with_active attempt_id state s.active s k)

  -- `dispatched`
  unfoldable pub dispatch_attempt : ℕ → RunLedger → Step
  dispatch_attempt attempt_id s = require_active attempt_id reserved s (λ a.
      then_do (append disk (dispatched_entry attempt_id a.stage a.participant) s)
        (λ t. done (record t { active = some (record a { state = dispatched }) })))

  abbrev charged : Usage → ℕ × ℕ → RunLedger → RunLedger
  charged usage helper s = record s {
    usage = add_usage s.usage usage;
    haiku_input_tokens = s.haiku_input_tokens + helper.0;
    haiku_output_tokens = s.haiku_output_tokens + helper.1;
  }

  unfoldable pub conclude : ℕ → Bool → Usage → ℕ × ℕ → RunLedger → Step
  conclude attempt_id accepted usage helper s =
      then_do (append disk (finish_entry attempt_id accepted usage helper) s)
        (λ t. if accepted then done t else halt disk "receipt_refused" t)

  -- The part of `finish` behind the receipt's entry: the counters move, and a ceiling that is passed
  -- halts the run.
  unfoldable pub account : ℕ → Bool → Option Usage → Option (ℕ × ℕ) → RunLedger → Step
  account attempt_id accepted none helper s =
      halt_and_refuse disk "receipt_usage_unknown" (record s { accounting_unknown = true })
  account attempt_id accepted (some usage) none s =
      halt_and_refuse disk "helper_usage_unknown"
        (record s { usage = add_usage s.usage usage; accounting_unknown = true })
  account attempt_id accepted (some usage) (some helper) s =
      let t = charged usage helper s in
      halted_if disk (ltb limits.total_tokens (total t.usage)) "total_token_budget_exceeded" t (
        halted_if disk (ltb limits.haiku_input_tokens t.haiku_input_tokens)
          "haiku_input_budget_exceeded" t
          (halted_if disk (ltb limits.haiku_output_tokens t.haiku_output_tokens)
            "haiku_output_budget_exceeded" t (conclude attempt_id accepted usage helper t)))

  -- A receipt that is a mapping and that `_canonical` prints, with a flag that is a Boolean.
  unfoldable pub valid_receipt : Value → Value → Option (Fields × Bool)
  valid_receipt (obj receipt) (boolean accepted) =
      if disk.prints receipt then some (receipt, accepted) else none
  valid_receipt receipt accepted = none

  unfoldable pub take_receipt : ℕ → Option (Fields × Bool) → RunLedger → Step
  take_receipt attempt_id none s = halt_and_refuse disk "receipt_invalid" s
  take_receipt attempt_id (some (receipt, accepted)) s =
      then_do (append disk (receipt_entry attempt_id accepted) s) (λ t.
        account attempt_id accepted (usage_from receipt) (haiku_usage (get "model_usage" receipt))
          (record t { active = none }))

  -- `finish`
  unfoldable pub finish : ℕ → Value → Value → RunLedger → Step
  finish attempt_id receipt accepted s =
      require_active attempt_id dispatched s
        (λ a. take_receipt attempt_id (valid_receipt receipt accepted) s)
