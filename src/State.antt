-- ===== src/State.antt =====
-- harness/state.py: the journal of a run, its replay, and the completed steps.
-- JSON is a parameter: `dumps` and `loads` of a `Wire`. A recorded result is a JSON value.
pub mod Replay
use harnessie.Prelude.{
  ℕ, String, Option, none, some, List, [], ◌∷◌, ◌++◌, Bool, true, false, if◌then◌else◌, str_eq,
  lookup, insert, Result, ok, raise, ◌>>=◌,
}
use harnessie.Prelude.Values.{
  Value, str, float, int, boolean, seq_of, obj, null, Fields, end, field, get, overlay,
}
use harnessie.Events.{Wire, lines_of}

-- What replaying a journal can raise: a JSONDecodeError, an AttributeError on a line that is no object, a
-- KeyError without a step key, and a TypeError on a key that cannot be hashed.
pub data StateError : Type 0 where
  not_json not_mapping no_step_key unhashable : StateError

-- `completed` is the dictionary, as far as its keys are texts; `has` and `result` take texts only.
pub record RunState : Type 0 where
  pub journal : List ℕ
  pub completed : List (String × Value)

abbrev pub is_step_done : Option Value → Bool
is_step_done (some (str kind)) = str_eq kind "step_done"
is_step_done _ = false

-- `rec.get("result")`
abbrev or_null : Option Value → Value
or_null none = null
or_null (some v) = v

-- `state.completed[rec["step_key"]] = rec.get("result")`
unfoldable pub complete_step :
    Option Value → Value → List (String × Value) → Result StateError (List (String × Value))
complete_step none result done = raise no_step_key
complete_step (some (str key)) result done = ok (insert key result done)
complete_step (some (obj _)) result done = raise unhashable
complete_step (some (seq_of _)) result done = raise unhashable
complete_step (some _) result done = ok done

unfoldable pub replay_record :
    Fields → List (String × Value) → Result StateError (List (String × Value))
replay_record rec done =
    if is_step_done (get "kind" rec)
    then complete_step (get "step_key" rec) (or_null (get "result" rec)) done
    else ok done

-- One parsed line of the journal.
unfoldable pub replay_value :
    Option Value → List (String × Value) → Result StateError (List (String × Value))
replay_value none done = raise not_json
replay_value (some (obj rec)) done = replay_record rec done
replay_value (some _) done = raise not_mapping

-- The record that `record` writes.
abbrev pub step_record : String → String → Value → Value
step_record ts key result = obj (
    field "ts" (float ts)
      (field "kind" (str "step_done") (field "step_key" (str key) (field "result" result end))))

-- The record that `note` writes.
abbrev pub note_record : String → String → Fields → Value
note_record ts kind payload =
    obj (overlay (field "ts" (float ts) (field "kind" (str kind) end)) payload)

unfoldable pub has : RunState → String → Bool
has s key = elim (lookup key s.completed) [ none ↦ false | some _ ↦ true ]

-- `none` stands for the KeyError.
unfoldable pub result : RunState → String → Option Value
result s key = lookup key s.completed

module _ (wire : Wire) where
  open wire use {dumps, loads}

  unfoldable pub replay :
      List (String × Value) → List (List ℕ) → Result StateError (List (String × Value))
  replay done [] = ok done
  replay done (line ∷ lines) = replay_value (loads line) done >>= λ next. replay next lines

  -- `RunState.open`; `none` stands for a journal that does not exist.
  unfoldable pub open_state : Option (List ℕ) → Result StateError RunState
  open_state none = ok (record { journal = []; completed = [] })
  open_state (some file) =
      replay [] (lines_of file) >>= λ done. ok (record { journal = file; completed = done })

  -- `RunState.record`
  unfoldable pub record_step : String → String → Value → RunState → RunState
  record_step ts key v s = record {
    journal = s.journal ++ (dumps (step_record ts key v) ++ 10 ∷ []);
    completed = insert key v s.completed;
  }

  unfoldable pub note : String → String → Fields → RunState → RunState
  note ts kind payload s = record s {
    journal = s.journal ++ (dumps (note_record ts kind payload) ++ 10 ∷ []);
  }
