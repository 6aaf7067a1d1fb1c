-- ===== src/BlastRadius/Meters.antt =====
-- Limits, snapshots, and the meter of a run.
use harnessie.Prelude.{
  ℕ, ◌+◌, String, ◌<>◌, Option, none, some, List, [], ◌∷◌, ◌++◌, Bool, true, false, not, ◌&&◌,
  if◌then◌else◌, ◌==◌, ltb, keep, map, mem, str_eq, lookup, length, distinct,
}

pub record BlastRadiusLimits : Type 0 where
  pub max_files_touched : Option ℕ
  pub max_edits_applied : Option ℕ
  pub max_bytes_written : Option ℕ

pub record Entry : Type 0 where
  pub kind : String
  pub content : List ℕ
  pub mode : ℕ

pub record Snapshot : Type 0 where
  pub entries : List (String × Entry)
  pub directories : List (String × ℕ)

pub record Delta : Type 0 where
  pub paths : List String
  pub edits : ℕ
  pub bytes_written : ℕ

pub record BlastRadiusExceeded : Type 0 where
  pub scope : String
  pub counter : String
  pub count : ℕ
  pub limit : ℕ
  pub phase : String
  pub operation : String

pub record RunBlastRadius : Type 0 where
  pub limits : BlastRadiusLimits
  pub touched : List String
  pub edits : ℕ
  pub bytes_written : ℕ

abbrev same_bytes : List ℕ → List ℕ → Bool
same_bytes [] [] = true
same_bytes (a ∷ more) (b ∷ others) = a == b && same_bytes more others
same_bytes _ _ = false

-- `==` of two entries, either of which may be missing.
unfoldable pub same_entry : Option Entry → Option Entry → Bool
same_entry none none = true
same_entry (some a) (some b) =
    str_eq a.kind b.kind && same_bytes a.content b.content && a.mode == b.mode
same_entry _ _ = false

abbrev names : List (String × Entry) → List String
names = map (λ e. e.0)

unfoldable pub changed_paths : Snapshot → Snapshot → List String
changed_paths before after =
    keep (λ p. not (same_entry (lookup p before.entries) (lookup p after.entries)))
      (distinct (names before.entries ++ names after.entries))

-- The size of what stands there now.
abbrev written_at : Option Entry → ℕ
written_at none = 0
written_at (some e) = length e.content

unfoldable pub total_written : List String → Snapshot → ℕ
total_written [] after = 0
total_written (p ∷ ps) after = written_at (lookup p after.entries) + total_written ps after

-- `_delta`
unfoldable pub delta : Snapshot → Snapshot → Delta
delta before after =
    let changed = changed_paths before after in
    record { paths = changed; edits = length changed; bytes_written = total_written changed after }

-- One counter against its limit.
unfoldable pub over : String → Option ℕ → ℕ → Option (String × ℕ × ℕ)
over counter none count = none
over counter (some limit) count = if ltb limit count then some (counter, count, limit) else none

unfoldable pub first_of : {A : Type 0} → Option A → Option A → Option A
first_of (some a) later = some a
first_of none later = later

-- `_breach`, in the order of `COUNTERS`.
unfoldable pub breach : BlastRadiusLimits → ℕ → ℕ → ℕ → Option (String × ℕ × ℕ)
breach limits files edits written =
    first_of (over "max_files_touched" limits.max_files_touched files) (
      first_of (over "max_edits_applied" limits.max_edits_applied edits)
        (over "max_bytes_written" limits.max_bytes_written written))

-- The union of two sets, kept as lists.
unfoldable pub add_all : List String → List String → List String
add_all xs [] = xs
add_all xs (y ∷ ys) = let rest = add_all xs ys in if mem y rest then rest else y ∷ rest

abbrev pub keys : String → List String → List String
keys namespace paths = map (λ p. namespace <> (":" <> p)) paths

abbrev pub charged : RunBlastRadius → List String → Delta → RunBlastRadius
charged meter touched d = record meter {
  touched = touched;
  edits = meter.edits + d.edits;
  bytes_written = meter.bytes_written + d.bytes_written;
}

unfoldable pub reserved :
    RunBlastRadius
    → RunBlastRadius
    → String
    → Option (String × ℕ × ℕ)
    → Option BlastRadiusExceeded × RunBlastRadius
reserved meter later phase none = (none, later)
reserved meter later phase (some (counter, count, limit)) = (
  some (record {
    scope = "run";
    counter = counter;
    count = count;
    limit = limit;
    phase = phase;
    operation = "";
  }),
  meter,
)

-- `RunBlastRadius.reserve`; the totals that it returns are those of the meter.
unfoldable pub reserve :
    String → String → Delta → RunBlastRadius → Option BlastRadiusExceeded × RunBlastRadius
reserve namespace phase d meter =
    let later = charged meter (add_all meter.touched (keys namespace d.paths)) d in
    reserved meter later phase
      (breach meter.limits (length later.touched) later.edits later.bytes_written)
