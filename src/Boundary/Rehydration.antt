-- ===== src/Boundary/Rehydration.antt =====
-- The strip map's file and the grants of rehydration, in harness/boundary.py.
use harnessie.Prelude.{
  ℕ, zero, suc, ◌-◌, ◌≡◌, String, Option, none, some, List, [], ◌∷◌, ◌++◌, Bool, true, false, not,
  if◌then◌else◌, length, starts_with, Result, ok, raise,
}
use harnessie.Prelude.Values.{Value, Fields}
use harnessie.Boundary.{Text, Mapping, Patterns, placeholder_text}
use harnessie.Approval.{ApprovalPolicy, PolicyFile, parsed, Printing, policy_of, decide, load}
use harnessie.Approval.Rules.{mapping_of, AllowedBy}

-- `text.replace("", new)`: `new` before every character and at the end.
unfoldable pub interleave : Text → Text → Text
interleave new [] = new
interleave new (c ∷ s) = new ++ c ∷ interleave new s

-- `text.replace(old, new)` for an `old` that is not empty; `skip` counts what is left of a match.
unfoldable pub replace_from : Text → Text → ℕ → Text → Text
replace_from old new skip [] = []
replace_from old new (suc skip) (c ∷ s) = replace_from old new skip s
replace_from old new zero (c ∷ s) =
    let behind = replace_from old new (length old - 1) s in
    let later = replace_from old new zero s in
    if starts_with (c ∷ s) old then new ++ behind else c ∷ later

-- `text.replace(old, new)`
unfoldable pub replace : Text → Text → Text → Text
replace [] new text = interleave new text
replace (c ∷ old) new text = replace_from (c ∷ old) new 0 text

pub data MapStatus : Type 0 where
  new_map loaded_map missing_map corrupt_map : MapStatus

-- The file that holds the map: absent, unreadable or of a wrong shape, or a mapping.
pub data MapFile : Type 0 where
  no_file broken_file : MapFile
  map_file : Mapping → MapFile

pub record StripMap : Type 0 where
  pub mapping : Mapping
  pub status : MapStatus
  pub file : MapFile

-- `rehydration_available`
unfoldable pub is_available : MapStatus → Bool
is_available new_map = true
is_available loaded_map = true
is_available _ = false

-- `StripMap.open`
unfoldable pub open_map : Bool → MapFile → StripMap
open_map expected no_file = record {
  mapping = [];
  status = if expected then missing_map else new_map;
  file = no_file;
}
open_map expected broken_file = record { mapping = []; status = corrupt_map; file = broken_file }
open_map expected (map_file m) = record { mapping = m; status = loaded_map; file = map_file m }

pub data SaveError : Type 0 where
  refuses_to_overwrite : SaveError

abbrev save_as : MapStatus → StripMap → Result SaveError StripMap
save_as corrupt_map s = raise refuses_to_overwrite
save_as _ s = ok (record s { status = loaded_map; file = map_file s.mapping })

-- `StripMap.save`; the write is atomic.
unfoldable pub save_map : StripMap → Result SaveError StripMap
save_map s = save_as s.status s

module _ (patterns : Patterns) where
  unfoldable pub replace_all : Mapping → Text → Text
  replace_all [] text = text
  replace_all ((key, value) ∷ m) text =
      replace_all m (replace (placeholder_text patterns key) value text)

  -- `Boundary.rehydrate`
  unfoldable pub rehydrate : Text → Mapping → Text
  rehydrate [] m = []
  rehydrate (c ∷ text) m = replace_all m (c ∷ text)

  -- The grants: none without a file, else those of an approval policy.
  abbrev pub is_granted : Option Bool → Bool
  is_granted (some b) = b
  is_granted none = false

  unfoldable pub allows : Option ApprovalPolicy → String → String → Bool
  allows none tool phase = false
  allows (some policy) tool phase = is_granted (decide policy phase tool)

  unfoldable pub rehydrate_for_tool :
      Option ApprovalPolicy → String → String → Text → StripMap → Text
  rehydrate_for_tool grants tool phase text s =
      if not (allows grants tool phase)
      then text
      else if not (is_available s.status)
      then text
      else rehydrate text s.mapping

  -- `RehydrationGrants.load`: a file that does not exist grants nothing.
  unfoldable pub load_grants :
      Printing → (Fields → List String) → Option PolicyFile → Option ApprovalPolicy
  load_grants printing validate none = none
  load_grants printing validate (some file) = some (load printing validate file)

  -- A grants file that was read and parsed to a mapping which the schema accepts, of whose rules none
  -- denies the tool in the phase and one allows it.
  abbrev pub GrantedBy :
      Printing → (Fields → List String) → Option PolicyFile → String → String → Type 0
  GrantedBy printing validate file tool phase =
      (v : Value) × (grants : Fields) × (file ≡ some (parsed v))
      × (mapping_of v (printing.truthy v) ≡ some grants)
      × (validate grants ≡ [])
      × AllowedBy (policy_of printing grants) phase tool
