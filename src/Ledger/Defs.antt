-- ===== src/Ledger/Defs.antt =====
-- The state of a ledger, its journal, and `halt`.
use harnessie.Prelude.Values.{Fields}
use harnessie.Prelude.{
  ℕ, ◌+◌, String, Option, none, List, [], ◌∷◌, ◌++◌, Bool, true, false, ◌&&◌, if◌then◌else◌, mem,
}

pub record Usage : Type 0 where
  pub input_tokens : ℕ
  pub output_tokens : ℕ
  pub cache_creation_input_tokens : ℕ
  pub cache_read_input_tokens : ℕ

abbrev pub zero_usage : Usage
zero_usage = record {
  input_tokens = 0;
  output_tokens = 0;
  cache_creation_input_tokens = 0;
  cache_read_input_tokens = 0;
}

-- `sum(usage.values())`
abbrev pub total : Usage → ℕ
total u =
    u.input_tokens + u.output_tokens + u.cache_creation_input_tokens + u.cache_read_input_tokens

abbrev pub add_usage : Usage → Usage → Usage
add_usage u v = record {
  input_tokens = u.input_tokens + v.input_tokens;
  output_tokens = u.output_tokens + v.output_tokens;
  cache_creation_input_tokens = u.cache_creation_input_tokens + v.cache_creation_input_tokens;
  cache_read_input_tokens = u.cache_read_input_tokens + v.cache_read_input_tokens;
}

-- `calls` is a dictionary with two keys in the code.
pub record LedgerLimits : Type 0 where
  pub calls : String → ℕ
  pub calls_per_stage : ℕ
  pub total_tokens : ℕ
  pub haiku_input_tokens : ℕ
  pub haiku_output_tokens : ℕ

pub data AttemptState : Type 0 where
  reserved dispatched : AttemptState

pub record Attempt : Type 0 where
  pub id : ℕ
  pub stage : String
  pub participant : String
  pub state : AttemptState

pub data JournalData : Type 0 where
  initial_entry : JournalData
  reserve_entry dispatched_entry : (attempt_id : ℕ) → (stage participant : String) → JournalData
  receipt_entry : (attempt_id : ℕ) → (accepted : Bool) → JournalData
  finish_entry : (attempt_id : ℕ) → (accepted : Bool) → Usage → (helper : ℕ × ℕ) → JournalData
  halt_entry : (reason : String) → JournalData

pub record JournalEntry : Type 0 where
  pub sequence : ℕ
  pub entry : JournalData
  pub previous_hash : String

-- `_last_stage + 1` is kept, since `_last_stage` starts at -1; the counters of calls and of stage calls
-- are functions of the key.
pub record RunLedger : Type 0 where
  pub is_open : Bool
  pub closed : Bool
  pub halted : Bool
  pub active : Option Attempt
  pub sequence : ℕ
  pub previous_hash : String
  pub calls : String → ℕ
  pub stage_calls : String → ℕ
  pub usage : Usage
  pub haiku_input_tokens : ℕ
  pub haiku_output_tokens : ℕ
  pub accounting_unknown : Bool
  pub stages_begun : ℕ
  pub journal : List JournalEntry

-- A step of the ledger ends well, or with a PilotRefusal; either way it leaves a state.
pub data Step : Type 0 where
  done : RunLedger → Step
  refused : String → RunLedger → Step

abbrev pub then_do : Step → (RunLedger → Step) → Step
then_do (done s) k = k s
then_do (refused reason s) k = refused reason s

-- The disk: whether the write of an entry with this number succeeds, and the hash of an entry; and
-- whether `json.dumps` prints a receipt, which has to be without NaN and infinities.
pub record Disk : Type 0 where
  pub persists : ℕ → Bool
  pub hash : JournalEntry → String
  pub prints : Fields → Bool

abbrev halt_reasons : List String
halt_reasons =
    "participant_call_budget_exhausted" ∷ "stage_call_budget_exhausted" ∷ "receipt_invalid"
    ∷ "receipt_usage_unknown" ∷ "helper_usage_unknown" ∷ "total_token_budget_exceeded"
    ∷ "haiku_input_budget_exceeded" ∷ "haiku_output_budget_exceeded" ∷ "receipt_refused" ∷ []

module _ (disk : Disk) where
  abbrev entry_of : JournalData → RunLedger → JournalEntry
  entry_of d s = record { sequence = s.sequence + 1; entry = d; previous_hash = s.previous_hash }

  -- The write of an entry, with the tests for the file and for its success given.
  unfoldable pub append_with : Bool → JournalData → RunLedger → Step
  append_with false d s = refused "ledger_io_failure" (record s { halted = true })
  append_with true d s = done (record s {
    sequence = s.sequence + 1;
    previous_hash = disk.hash (entry_of d s);
    journal = s.journal ++ entry_of d s ∷ [];
  })

  -- `_append`
  unfoldable pub append : JournalData → RunLedger → Step
  append d s = append_with (s.is_open && disk.persists (s.sequence + 1)) d s

  unfoldable pub halt_with : Bool → String → RunLedger → Step
  halt_with true reason s = done s
  halt_with false reason s =
      append (halt_entry (if mem reason halt_reasons then reason else "ledger_halted"))
        (record s { halted = true })

  unfoldable pub halt : String → RunLedger → Step
  halt reason s = halt_with s.halted reason s

  -- `self.halt(reason)` and `raise PilotRefusal(reason)`
  unfoldable pub halt_and_refuse : String → RunLedger → Step
  halt_and_refuse reason s = then_do (halt reason s) (λ t. refused reason t)

  -- `if b: self.halt(reason); raise PilotRefusal(reason)`
  unfoldable pub halted_if : Bool → String → RunLedger → Step → Step
  halted_if true reason s next = halt_and_refuse reason s
  halted_if false reason s next = next

-- `if b: raise PilotRefusal(reason)`
unfoldable pub refused_if : Bool → String → RunLedger → Step → Step
refused_if true reason s next = refused reason s
refused_if false reason s next = next

-- `close`, with the outcome of syncing and closing the file; a closed ledger stays as it is.
unfoldable pub close_with : Bool → Bool → Bool → RunLedger → Step
close_with true is_open synced s = done s
close_with false false synced s = done (record s { closed = true })
close_with false true true s = done (record s { closed = true; is_open = false })
close_with false true false s =
    refused "ledger_io_failure" (record s { closed = true; is_open = false })

unfoldable pub close : Bool → RunLedger → Step
close synced s = close_with s.closed s.is_open synced s

-- The fields of a new ledger, whose journal file is open.
abbrev pub fresh : RunLedger
fresh = record {
  is_open = true;
  closed = false;
  halted = false;
  active = none;
  sequence = 0;
  previous_hash = "";
  calls = λ participant. 0;
  stage_calls = λ stage. 0;
  usage = zero_usage;
  haiku_input_tokens = 0;
  haiku_output_tokens = 0;
  accounting_unknown = false;
  stages_begun = 0;
  journal = [];
}

-- `_create`, with the directory and the file made.
unfoldable pub create : Disk → Step
create disk = append disk initial_entry fresh
