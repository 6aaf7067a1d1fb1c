-- ===== src/Samples/Ledger.antt =====
-- A run of three operations with a ceiling of one call.
use harnessie.Prelude.{List, [], ◌∷◌, true, pos}
use harnessie.Prelude.Values.{Value, int, obj, Fields, end, field}
use harnessie.Ledger.{Disk, LedgerLimits, fresh}
use harnessie.Ledger.Limits.{Within}
use harnessie.Ledger.Runs.{
  Operation, reserving, dispatching, finishing, perform_all, perform_all-Within, fresh-Within,
}

abbrev disk : Disk
disk = record { persists = λ n. true; hash = λ entry. "hash"; prints = λ receipt. true }

abbrev one_call : LedgerLimits
one_call = record {
  calls = λ participant. 1;
  calls_per_stage = 1;
  total_tokens = 100;
  haiku_input_tokens = 10;
  haiku_output_tokens = 10;
}

abbrev usage : Value
usage = obj (
    field "input_tokens" (int (pos 60)) (
      field "output_tokens" (int (pos 30)) (
        field "cache_creation_input_tokens" (int (pos 0))
          (field "cache_read_input_tokens" (int (pos 20)) end))))

abbrev receipt : Fields
receipt = field "usage" usage (field "model_usage" (obj end) end)

abbrev operations : List Operation
operations =
    reserving "claude:position" "claude"
    ∷ dispatching 1
    ∷ finishing 1 (Value.obj receipt) (Value.boolean true)
    ∷ reserving "claude:position" "claude"
    ∷ []

perform_all-Within_example : Within disk one_call (perform_all disk one_call operations fresh)
perform_all-Within_example =
    perform_all-Within disk one_call operations fresh (fresh-Within disk one_call)
