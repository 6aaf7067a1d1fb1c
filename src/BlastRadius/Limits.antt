-- ===== src/BlastRadius/Limits.antt =====
-- `parse_limits` of harness/blast_radius.py.
use harnessie.Prelude.{
  ℕ, String, Option, none, some, List, [], ◌∷◌, Bool, true, false, mem, if◌then◌else◌, Result, ok,
  raise, ◌>>=◌, pos,
}
use harnessie.Prelude.Values.{Value, int, obj, null, Fields, end, field, get}
use harnessie.BlastRadius.Meters.{BlastRadiusLimits}

-- Each at a location, which the message names.
pub data BlastRadiusConfigError : Type 0 where
  limits_not_a_mapping : String → BlastRadiusConfigError
  unknown_limit_keys : String → List String → BlastRadiusConfigError
  not_a_count : String → String → BlastRadiusConfigError

abbrev pub counter_names : List String
counter_names = "max_files_touched" ∷ "max_edits_applied" ∷ "max_bytes_written" ∷ []

abbrev unknown_keys : Fields → List String
unknown_keys end = []
unknown_keys (field k v d) =
    let rest = unknown_keys d in if mem k counter_names then rest else k ∷ rest

-- A count, or none where it is absent or null; a bool is no count.
unfoldable pub limit_of : String → String → Option Value → Result BlastRadiusConfigError (Option ℕ)
limit_of location name none = ok none
limit_of location name (some null) = ok none
limit_of location name (some (int (pos n))) = ok (some n)
limit_of location name (some _) = raise (not_a_count location name)

unfoldable pub limits_of :
    String → Fields → List String → Result BlastRadiusConfigError BlastRadiusLimits
limits_of location d (k ∷ ks) = raise (unknown_limit_keys location (k ∷ ks))
limits_of location d [] =
    limit_of location "max_files_touched" (get "max_files_touched" d) >>= λ files.
    limit_of location "max_edits_applied" (get "max_edits_applied" d) >>= λ edits.
    limit_of location "max_bytes_written" (get "max_bytes_written" d) >>= λ bytes.
    ok (record { max_files_touched = files; max_edits_applied = edits; max_bytes_written = bytes })

abbrev no_limits : BlastRadiusLimits
no_limits = record { max_files_touched = none; max_edits_applied = none; max_bytes_written = none }

unfoldable pub parse_limits :
    Option Value → String → Result BlastRadiusConfigError BlastRadiusLimits
parse_limits none location = ok no_limits
parse_limits (some null) location = ok no_limits
parse_limits (some (obj d)) location = limits_of location d (unknown_keys d)
parse_limits (some _) location = raise (limits_not_a_mapping location)

-- `BlastRadiusLimits.active`
unfoldable pub is_active : BlastRadiusLimits → Bool
is_active l = elim l.max_files_touched [
  | some _ ↦ true
  | none ↦ elim l.max_edits_applied [
    | some _ ↦ true
    | none ↦ elim l.max_bytes_written [ some _ ↦ true | none ↦ false ]
  ]
]
