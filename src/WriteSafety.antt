-- ===== src/WriteSafety.antt =====
-- harness/write_safety.py: the write declarations of a parallel group.
-- Texts are lists of code points. `fold` is the comparison form of a path segment: the library's Unicode
-- normalization and case folding.
pub mod Disjoint
use harnessie.Prelude.{
  ℕ, String, Option, none, some, List, [], ◌∷◌, ◌++◌, Bool, true, false, not, ◌&&◌, ◌||◌,
  if◌then◌else◌, ◌==◌, ltb, any, all, map, is_space, str_eq, same_codes, codes, Result, ok, raise,
  raise_if, ◌>>=◌, ◌>>◌,
}
use harnessie.Prelude.Values.{Value, str, seq_of, to_list}

pub data WriteDeclarationError : Type 0 where
  not_a_text not_a_line not_posix has_control has_glob bad_segment outside : WriteDeclarationError
  partly_declared : List String → WriteDeclarationError
  not_a_list : String → WriteDeclarationError

abbrev pub Segment : Type 0
Segment = List ℕ

pub record WritePath : Type 0 where
  pub parts : List Segment
  pub directory : Bool
  pub raw : String

pub record WriteConflict : Type 0 where
  pub left_phase : String
  pub left : WritePath
  pub right_phase : String
  pub right : WritePath

-- A phase as the preflight reads it: its name, and its `writes` where the key is there.
pub record Phase : Type 0 where
  pub name : String
  pub writes : Option Value

abbrev starts_with_space : List ℕ → Bool
starts_with_space [] = false
starts_with_space (c ∷ cs) = is_space c

abbrev ends_with : (ℕ → Bool) → List ℕ → Bool
ends_with p [] = false
ends_with p (c ∷ []) = p c
ends_with p (_ ∷ d ∷ cs) = ends_with p (d ∷ cs)

abbrev is_empty {ℓ} : {A : Type ℓ} → List A → Bool
is_empty [] = true
is_empty (_ ∷ _) = false

-- `raw.rstrip("/")`
abbrev rstrip_slash : List ℕ → List ℕ
rstrip_slash [] = []
rstrip_slash (c ∷ cs) =
    let rest = rstrip_slash cs in if is_empty rest && c == 47 then [] else c ∷ rest

abbrev cons_first : ℕ → List Segment → List Segment
cons_first c [] = (c ∷ []) ∷ []
cons_first c (s ∷ ss) = (c ∷ s) ∷ ss

-- `value_text.split("/")`
abbrev split_slash : List ℕ → List Segment
split_slash [] = [] ∷ []
split_slash (c ∷ cs) = let rest = split_slash cs in if c == 47 then [] ∷ rest else cons_first c rest

-- An empty segment, `.` or `..`.
abbrev is_bad_segment : Segment → Bool
is_bad_segment s = is_empty s || same_codes s (46 ∷ []) || same_codes s (46 ∷ 46 ∷ [])

abbrev is_control : ℕ → Bool
is_control c = ltb c 32 || c == 127

abbrev is_glob : ℕ → Bool
is_glob c = c == 42 || c == 63 || c == 91 || c == 93

abbrev is_line_end : ℕ → Bool
is_line_end c = c == 10 || c == 13

abbrev value_text : List ℕ → List ℕ
value_text cs = if ends_with (λ c. c == 47) cs then rstrip_slash cs else cs

unfoldable pub parse_text : String → List ℕ → Result WriteDeclarationError WritePath
parse_text raw cs = do
  raise_if (is_empty cs || starts_with_space cs || ends_with is_space cs || any is_line_end cs)
      not_a_line
  raise_if (any (λ c. c == 92) cs) not_posix
  raise_if (any is_control cs) has_control
  raise_if (any is_glob cs) has_glob
  raise_if (any is_bad_segment (split_slash (value_text cs))) bad_segment
  ok (record {
    parts = split_slash (value_text cs);
    directory = ends_with (λ c. c == 47) cs;
    raw = raw;
  })

-- `parse_write_path`; its last test, of what the segments rule out already, never raises.
unfoldable pub parse_write_path : Value → Result WriteDeclarationError WritePath
parse_write_path (str raw) = parse_text raw (codes raw)
parse_write_path _ = raise not_a_text

unfoldable pub same_parts : List Segment → List Segment → Bool
same_parts [] [] = true
same_parts (s ∷ ss) (t ∷ ts) = same_codes s t && same_parts ss ts
same_parts _ _ = false

-- `child_parts[:len(parent_parts)] == parent_parts`
unfoldable pub is_prefix : List Segment → List Segment → Bool
is_prefix [] child = true
is_prefix (s ∷ ss) [] = false
is_prefix (s ∷ ss) (t ∷ ts) = same_codes s t && is_prefix ss ts

abbrev pub is_declared : Phase → Bool
is_declared p = elim p.writes [ none ↦ false | some _ ↦ true ]

abbrev missing_names : List Phase → List String
missing_names [] = []
missing_names (p ∷ ps) =
    let rest = missing_names ps in if is_declared p then rest else p.name ∷ rest

-- The paths of one phase, with its name.
unfoldable pub declare_all :
    String → List Value → Result WriteDeclarationError (List (String × WritePath))
declare_all name [] = ok []
declare_all name (v ∷ vs) =
    parse_write_path v >>= λ p. declare_all name vs >>= λ ps. ok ((name, p) ∷ ps)

unfoldable pub declare_phase :
    String → Option Value → Result WriteDeclarationError (List (String × WritePath))
declare_phase name (some (seq_of vs)) = declare_all name (to_list vs)
declare_phase name _ = raise (not_a_list name)

unfoldable pub declared : List Phase → Result WriteDeclarationError (List (String × WritePath))
declared [] = ok []
declared (p ∷ ps) =
    declare_phase p.name p.writes >>= λ first. declared ps >>= λ rest. ok (first ++ rest)

module _ (fold : Segment → Segment) where
  -- `_comparison_parts`
  abbrev pub comparison_parts : WritePath → List Segment
  comparison_parts p = map fold p.parts

  -- `_contains`
  unfoldable pub contains : WritePath → WritePath → Bool
  contains parent child =
      if parent.directory
      then is_prefix (comparison_parts parent) (comparison_parts child)
      else same_parts (comparison_parts parent) (comparison_parts child)

  unfoldable pub overlap : WritePath → WritePath → Bool
  overlap left right = contains left right || contains right left

  -- The inner loop: the later declarations that conflict with one.
  unfoldable pub conflicts_with :
      String → WritePath → List (String × WritePath) → List WriteConflict
  conflicts_with name left [] = []
  conflicts_with name left ((other, right) ∷ ds) =
      let rest = conflicts_with name left ds in
      if not (str_eq name other) && overlap left right
      then (record { left_phase = name; left = left; right_phase = other; right = right }) ∷ rest
      else rest

  unfoldable pub conflicts_in : List (String × WritePath) → List WriteConflict
  conflicts_in [] = []
  conflicts_in ((name, left) ∷ ds) = conflicts_with name left ds ++ conflicts_in ds

  -- `parallel_write_conflicts`
  unfoldable pub parallel_write_conflicts :
      List Phase → Result WriteDeclarationError (List WriteConflict)
  parallel_write_conflicts phases =
      if any is_declared phases
      then (if all is_declared phases
          then (declared phases >>= λ ds. ok (conflicts_in ds))
          else raise (partly_declared (missing_names phases)))
      else ok []
