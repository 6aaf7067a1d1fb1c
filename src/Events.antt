-- ===== src/Events.antt =====
-- harness/events.py, the hash-chained event log, and the check of its chain in harness/audit.py.
-- A file is a text, a list of code points. JSON and SHA-256 are not code of the repository: they are
-- the fields of a `Wire`.
pub mod Chain
pub mod Tamper
pub mod Separators
use harnessie.Prelude.{
  ℕ, zero, suc, ◌+◌, ◌≡◌, String, Option, none, some, List, [], ◌∷◌, ◌++◌, Bool, true, false, not,
  ◌&&◌, ◌==◌, if◌then◌else◌, keep, length, str_eq, pos, negsuc, is_blank, splitlines,
}
use harnessie.Prelude.Values.{Value, int, float, str, obj, Fields, end, field, get, overlay}

pub record Wire : Type 0 where
  -- `json.dumps(value, ensure_ascii=False, default=str)`
  pub dumps : Value → List ℕ
  -- `json.loads(line)`; `none` stands for the JSONDecodeError
  pub loads : List ℕ → Option Value
  -- `line_hash`
  pub line_hash : List ℕ → String

abbrev pub genesis : String
genesis = "genesis"

-- One call of `emit`: the clock's reading, spelled as JSON spells it, and the arguments.
pub record Emission : Type 0 where
  pub ts : String
  pub kind : String
  pub payload : Fields

pub record EventLog : Type 0 where
  pub file : List ℕ
  pub seq : ℕ
  pub prev : String

-- What `emit` puts into every event.
abbrev pub chain_fields : EventLog → Emission → Fields
chain_fields log e = field "ts" (float e.ts) (
    field "seq" (int (pos (log.seq + 1)))
      (field "prev" (str log.prev) (field "kind" (str e.kind) end)))

-- The event that `emit` serialises; keyword arguments come last, and win.
unfoldable pub event_of : EventLog → Emission → Value
event_of log e = obj (overlay (chain_fields log e) e.payload)

abbrev pub is_text : String → Option Value → Bool
is_text s (some (str t)) = str_eq t s
is_text s _ = false

-- A bool is an `int` in Python, and is refused by `type(...) is not int`.
abbrev pub is_number : ℕ → Option Value → Bool
is_number n (some (int (pos m))) = m == n
is_number n _ = false

-- `rec.get(key)` of a parsed line; what does not parse, or is no object, has no field.
abbrev pub field_of : String → Option Value → Option Value
field_of key (some (obj rec)) = get key rec
field_of key _ = none

-- Whether a parsed line continues the chain. The three ways to break it (no JSON, no object, a wrong
-- link) leave the loop in the same state.
unfoldable pub is_link : String → ℕ → Option Value → Bool
is_link prev seq v = is_text prev (field_of "prev" v) && is_number (seq + 1) (field_of "seq" v)

abbrev pub is_empty : List ℕ → Bool
is_empty [] = true
is_empty (_ ∷ _) = false

pub record ChainReport : Type 0 where
  pub is_ok : Bool
  pub length_of : ℕ
  pub breaks : List ℕ

-- The lines of a file that are not blank.
abbrev pub lines_of : List ℕ → List (List ℕ)
lines_of file = keep (λ l. not (is_blank l)) (splitlines file)

module _ (wire : Wire) where
  open wire use {dumps, loads, line_hash}

  abbrev pub prev_after : String → List (List ℕ) → String
  prev_after prev [] = prev
  prev_after prev (l ∷ ls) = prev_after (line_hash l) ls

  -- `__post_init__`: the chain goes on from the last line of an existing file.
  unfoldable pub reopen : Option (List ℕ) → EventLog
  reopen none = record { file = []; seq = 0; prev = genesis }
  reopen (some file) = record {
    file = file;
    seq = length (lines_of file);
    prev = prev_after genesis (lines_of file);
  }

  unfoldable pub emit : EventLog → Emission → EventLog
  emit log e =
      let line = dumps (event_of log e) in
      record { file = log.file ++ (line ++ 10 ∷ []); seq = log.seq + 1; prev = line_hash line }

  unfoldable pub emit_all : EventLog → List Emission → EventLog
  emit_all log [] = log
  emit_all log (e ∷ es) = emit_all (emit log e) es

  -- The loop of `verify_chain_lines`: the 1-based numbers of the lines that break the chain.
  pub breaks_from : String → ℕ → ℕ → List (List ℕ) → List ℕ
  unfolding is_link
  breaks_from prev seq n [] = []
  breaks_from prev seq n (line ∷ lines) =
      let rest = breaks_from (line_hash line) (seq + 1) (n + 1) lines in
      if is_link prev seq (loads line) then rest else n ∷ rest

  unfoldable pub verify_chain_lines : List (List ℕ) → ChainReport
  unfolding breaks_from
  verify_chain_lines lines =
      let breaks = breaks_from genesis 0 1 lines in
      record { is_ok = is_empty breaks; length_of = length lines; breaks = breaks }

  -- `verify_chain`; `none` stands for a missing file.
  unfoldable pub verify_chain : Option (List ℕ) → ChainReport
  verify_chain none = record { is_ok = false; length_of = 0; breaks = [] }
  verify_chain (some file) = verify_chain_lines (lines_of file)
