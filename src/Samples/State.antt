-- ===== src/Samples/State.antt =====
-- A run that records a step twice, with a remark between.
use harnessie.Prelude.{
  ℕ, ◌≡◌, refl, Option, some, none, List, [], ◌∷◌, if◌then◌else◌, ◌==◌, str_eq, ok,
}
use harnessie.Prelude.Values.{Value, obj, str, float, end, get}
use harnessie.Events.{Wire}
use harnessie.State.{open_state, result}
use harnessie.State.Replay.{
  Write, step, remark, value_of, recorded, perform_all, IsSaved, fresh_state, open_state-recorded,
}

abbrev halted : Write
halted = step "1" "phase:build" (str "needs_human")

abbrev resumed : Write
resumed = remark "2" "resumed" end

abbrev built : Write
built = step "3" "phase:build" (str "passed")

abbrev code_of : Option Value → ℕ
code_of (some (float s)) = if str_eq s "1" then 65 else if str_eq s "2" then 66 else 67
code_of _ = 64

abbrev dumps_write : Value → List ℕ
dumps_write (obj d) = code_of (get "ts" d) ∷ []
dumps_write _ = 64 ∷ []

abbrev loads_write : List ℕ → Option Value
loads_write (c ∷ []) =
    if c == 65
    then some (value_of halted)
    else if c == 66
    then some (value_of resumed)
    else if c == 67
    then some (value_of built)
    else none
loads_write _ = none

abbrev journal_wire : Wire
journal_wire = record { dumps = dumps_write; loads = loads_write; line_hash = λ l. "h" }

abbrev writes : List Write
writes = halted ∷ resumed ∷ built ∷ []

halted-IsSaved : IsSaved journal_wire halted
halted-IsSaved = record { line = record { one = refl; shown = refl }; back = refl; remark = tt }

resumed-IsSaved : IsSaved journal_wire resumed
resumed-IsSaved = record {
  line = record { one = refl; shown = refl };
  back = refl;
  remark = (refl, refl);
}

built-IsSaved : IsSaved journal_wire built
built-IsSaved = record { line = record { one = refl; shown = refl }; back = refl; remark = tt }

last_wins : recorded (λ j. none) writes "phase:build" ≡ some (str "passed")
unfolding recorded
last_wins = refl

open_state-recorded_example :
    (open_state journal_wire (some (perform_all journal_wire writes fresh_state).journal)
      ≡ ok (perform_all journal_wire writes fresh_state))
    × (result (perform_all journal_wire writes fresh_state) "phase:build"
        ≡ recorded (λ j. none) writes "phase:build")
open_state-recorded_example =
    open_state-recorded journal_wire writes "phase:build"
      (halted-IsSaved, (resumed-IsSaved, (built-IsSaved, tt)))
