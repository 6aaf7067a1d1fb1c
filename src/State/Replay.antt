-- ===== src/State/Replay.antt =====
-- The journal of harness/state.py, and the map of last results.
use harnessie.Prelude.{
  ℕ, ◌≡◌, refl, sym, ap, ◌∙◌, subst, String, Option, none, some, List, [], ◌∷◌, ◌++◌, false,
  if◌then◌else◌, str_eq, Result, ok, raise, ◌>>=◌, All, All-append, lookup-insert, mem,
}
use harnessie.Prelude.Values.{Value, str, float, Fields, end, field, get-overlay, keys}
use harnessie.Events.{Wire, lines_of}
use harnessie.Events.Chain.{IsLine, file_of, file_of-append, lines_of-file_of}
use harnessie.State.{
  StateError, RunState, complete_step, replay_record, replay_value, step_record, note_record,
  result, replay, open_state, record_step, note,
}

-- A write to the journal, with the clock's reading.
pub data Write : Type 0 where
  step : String → String → Value → Write
  remark : String → String → Fields → Write

abbrev pub Recorded : Type 0
Recorded = String → Option Value

abbrev pub fresh_state : RunState
fresh_state = record { journal = []; completed = [] }

-- The abstract run: the last result that was recorded under a key.
unfoldable pub recorded : Recorded → List Write → Recorded
recorded m [] = m
recorded m (step ts key v ∷ ws) = recorded (λ j. if str_eq key j then some v else m j) ws
recorded m (remark ts kind payload ∷ ws) = recorded m ws

abbrev pub value_of : Write → Value
value_of (step ts key v) = step_record ts key v
value_of (remark ts kind payload) = note_record ts kind payload

-- A remark is no step: its kind is another one, and no argument is called `kind`.
abbrev pub IsRemark : Write → Type 0
IsRemark (step ts key v) = Unit
IsRemark (remark ts kind payload) =
    (str_eq kind "step_done" ≡ false) × (mem "kind" (keys payload) ≡ false)

ok_injective : {E A : Type 0} {a b : A} → ◌≡◌ {A = Result E A} (ok a) (ok b) → a ≡ b
ok_injective h = cc

module _ (wire : Wire) where
  open wire use {dumps, loads}

  unfoldable pub perform : Write → RunState → RunState
  perform (step ts key v) s = record_step wire ts key v s
  perform (remark ts kind payload) s = note wire ts kind payload s

  unfoldable pub perform_all : List Write → RunState → RunState
  perform_all [] s = s
  perform_all (w ∷ ws) s = perform_all ws (perform w s)

  -- A write is one line that JSON reads back.
  pub record IsSaved (w : Write) : Type 0 where
    pub line : IsLine (dumps (value_of w))
    pub back : loads (dumps (value_of w)) ≡ some (value_of w)
    pub remark : IsRemark w

  -- The journal holds lines whose replay gives the completed steps.
  record Replays (s : RunState) : Type 0 where
    lines : List (List ℕ)
    each : All IsLine lines
    file : s.journal ≡ file_of lines
    steps : replay wire [] lines ≡ ok s.completed

  replay-append :
      (done before after : List (String × Value)) (ls : List (List ℕ)) (l : List ℕ)
      → replay wire done ls ≡ ok before
      → replay_value (loads l) before ≡ ok after
      → replay wire done (ls ++ l ∷ []) ≡ ok after
  unfolding replay
  replay-append done before after [] l h k =
      subst (λ d. (replay_value (loads l) d >>= λ next. ok next) ≡ ok after) (sym (ok_injective h))
        (rw k refl)
  replay-append done before after (m ∷ ls) l h k =
      append_from (replay_value (loads m) done) h
        (λ next r. replay-append next before after ls l r k)
    where
      append_from :
          (r : Result StateError (List (String × Value)))
          → (r >>= λ next. replay wire next ls) ≡ ok before
          → ((next : List (String × Value))
              → replay wire next ls ≡ ok before
              → replay wire next (ls ++ l ∷ []) ≡ ok after)
          → (r >>= λ next. replay wire next (ls ++ l ∷ [])) ≡ ok after
      append_from (raise e) h later = absurd (cc)
      append_from (ok next) h later = later next h

  note_record-skipped :
      (ts kind : String) (payload : Fields) (done : List (String × Value))
      → IsRemark (remark ts kind payload)
      → replay_value (some (note_record ts kind payload)) done ≡ ok done
  unfolding replay_value replay_record
  note_record-skipped ts kind payload done (other, free) =
      rw (get-overlay "kind" (field "ts" (float ts) (field "kind" (str kind) end)) payload free)
        (rw other refl)

  saved :
      (s : RunState) (w : Write) (v : Value) (after : List (String × Value))
      → Replays s
      → IsLine (dumps v)
      → loads (dumps v) ≡ some v
      → replay_value (some v) s.completed ≡ ok after
      → Replays (record { journal = s.journal ++ (dumps v ++ 10 ∷ []); completed = after })
  saved s w v after h line back kept = record {
    lines = h.lines ++ dumps v ∷ [];
    each = All-append IsLine h.lines (dumps v ∷ []) h.each (line, tt);
    file = ap (λ j. j ++ (dumps v ++ 10 ∷ [])) h.file ∙ file_of-append h.lines (dumps v);
    steps = replay-append [] s.completed after h.lines (dumps v) h.steps (rw back kept);
  }

  perform-Replays : (w : Write) (s : RunState) → Replays s → IsSaved w → Replays (perform w s)
  unfolding perform record_step note replay_value replay_record complete_step
  perform-Replays (step ts key v) s h w =
      saved s (step ts key v) (step_record ts key v) _ h w.line w.back refl
  perform-Replays (remark ts kind payload) s h w =
      saved s (remark ts kind payload) (note_record ts kind payload) _ h w.line w.back
        (note_record-skipped ts kind payload s.completed w.remark)

  perform_all-Replays :
      (ws : List Write) (s : RunState) → Replays s → All IsSaved ws → Replays (perform_all ws s)
  unfolding perform_all
  perform_all-Replays [] s h a = h
  perform_all-Replays (w ∷ ws) s h a =
      perform_all-Replays ws (perform w s) (perform-Replays w s h a.0) a.1

  open-Replays : (s : RunState) → Replays s → open_state wire (some s.journal) ≡ ok s
  unfolding open_state
  open-Replays s h = rw (ap lines_of h.file ∙ lines_of-file_of h.lines h.each) (rw h.steps refl)

  -- What the completed steps say under a key, as the abstract run does.
  result-recorded :
      (ws : List Write) (s : RunState) (m : Recorded) (k : String)
      → ((j : String) → result s j ≡ m j)
      → result (perform_all ws s) k ≡ recorded m ws k
  unfolding perform_all perform record_step note result recorded
  result-recorded [] s m k h = h k
  result-recorded (step ts key v ∷ ws) s m k h =
      result-recorded ws (perform (step ts key v) s) (λ j. if str_eq key j then some v else m j) k
        (λ j.
          lookup-insert key j v s.completed ∙ ap (λ o. if str_eq key j then some v else o) (h j))
  result-recorded (remark ts kind payload ∷ ws) s m k h =
      result-recorded ws (perform (remark ts kind payload) s) m k h

  -- Where every write is one line that JSON reads back: after any writes to a new run, reopening its
  -- journal gives the very state that the run had, and under every key that state holds what the abstract
  -- run does, the result that was recorded last.
  pub open_state-recorded :
      (ws : List Write) (key : String)
      → All IsSaved ws
      → (open_state wire (some (perform_all ws fresh_state).journal)
          ≡ ok (perform_all ws fresh_state))
        × (result (perform_all ws fresh_state) key ≡ recorded (λ j. none) ws key)
  unfolding replay result
  open_state-recorded ws key a = (
    open-Replays (perform_all ws fresh_state) (
        perform_all-Replays ws fresh_state
          (record { lines = []; each = tt; file = refl; steps = refl }) a),
    result-recorded ws fresh_state (λ j. none) key (λ j. refl),
  )
