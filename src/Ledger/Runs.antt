-- ===== src/Ledger/Runs.antt =====
-- Sequences of operations of a ledger.
use harnessie.Prelude.{ℕ, String, List, [], ◌∷◌, Bool, arith}
use harnessie.Prelude.Values.{Value}
use harnessie.Ledger.Defs.{LedgerLimits, RunLedger, Step, Disk, fresh, halt, close}
use harnessie.Ledger.Attempts.{reserve, dispatch_attempt, finish}
use harnessie.Ledger.Limits.{
  Within, Safe, end_state, reserve-Safe, dispatch_attempt-Safe, finish-Safe, halt-Safe, close-Safe,
}

-- A call of one of the ledger's methods.
pub data Operation : Type 0 where
  reserving : (stage participant : String) → Operation
  dispatching : (attempt_id : ℕ) → Operation
  finishing : (attempt_id : ℕ) → (receipt accepted : Value) → Operation
  halting : (reason : String) → Operation
  closing : (synced : Bool) → Operation

module _ (disk : Disk) (limits : LedgerLimits) where
  unfoldable pub perform : Operation → RunLedger → Step
  perform (reserving stage participant) s = reserve disk limits stage participant s
  perform (dispatching attempt_id) s = dispatch_attempt disk limits attempt_id s
  perform (finishing attempt_id receipt accepted) s =
      finish disk limits attempt_id receipt accepted s
  perform (halting reason) s = halt disk reason s
  perform (closing synced) s = close synced s

  -- The caller goes on whether or not an operation was refused.
  unfoldable pub perform_all : List Operation → RunLedger → RunLedger
  perform_all [] s = s
  perform_all (op ∷ ops) s = perform_all ops (end_state disk limits (perform op s))

  perform-Safe :
      (op : Operation) (s : RunLedger) → Within disk limits s → Safe disk limits (perform op s)
  unfolding perform halt close
  perform-Safe (reserving stage participant) s w = reserve-Safe disk limits stage participant s w
  perform-Safe (dispatching attempt_id) s w = dispatch_attempt-Safe disk limits attempt_id s w
  perform-Safe (finishing attempt_id receipt accepted) s w =
      finish-Safe disk limits attempt_id receipt accepted s w
  perform-Safe (halting reason) s w = halt-Safe disk limits s.halted reason s w
  perform-Safe (closing synced) s w = close-Safe disk limits s.closed s.is_open synced s w

  -- From a ledger within its ceilings, after any sequence of operations, refused ones included, no participant and no stage has been
  -- given more calls than its ceiling, and unless the ledger has halted the tokens spent are within
  -- their three ceilings.
  pub perform_all-Within :
      (ops : List Operation) (s : RunLedger)
      → Within disk limits s
      → Within disk limits (perform_all ops s)
  unfolding perform_all
  perform_all-Within [] s w = w
  perform_all-Within (op ∷ ops) s w = perform_all-Within ops _ (perform-Safe op s w).within

  -- A new ledger is within its ceilings.
  pub fresh-Within : Within disk limits fresh
  fresh-Within = record {
    calls_within = λ participant. omega arith;
    stages_within = λ stage. omega arith;
    spent_within = λ h. (omega arith, omega arith, omega arith);
  }
