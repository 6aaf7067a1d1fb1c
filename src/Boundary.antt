-- ===== src/Boundary.antt =====
-- harness/boundary.py: stripping personal data into placeholders, the egress gate, and rehydration.
-- Texts are lists of code points. The regular expressions are parameters.
pub mod OneToOne
pub mod Rehydration
use harnessie.Prelude.{
  ℕ, zero, suc, ◌+◌, String, ◌<>◌, Option, none, some, List, [], ◌∷◌, ◌++◌, Bool, true, false, ◌&&◌,
  ◌||◌, if◌then◌else◌, any, ltb, leb, ◌==◌, str_eq, lookup, insert, codes, same_codes, starts_with,
  length, Result, ok, raise,
}

abbrev pub Text : Type 0
Text = List ℕ

-- The placeholder `[KIND_N]`, or a key of a loaded map that no run writes. Of the latter the code also
-- counts those whose number has leading zeros.
pub data Placeholder : Type 0 where
  numbered : String → ℕ → Placeholder
  other : Text → Placeholder

pub record Span : Type 0 where
  pub start : ℕ
  pub stop : ℕ
  pub value : Text

-- A match: the whole, and the groups up to `lastindex`, `none` for a group that did not take part.
pub record Match : Type 0 where
  pub whole : Span
  pub groups : List (Option Span)

-- `matches kind` is `finditer` of a kind's pattern, `secrets` the labels that SECRET_PATTERNS finds.
-- `show_number` is `str` of a number.
pub record Patterns : Type 0 where
  pub kinds : List String
  pub matches : String → Text → List Match
  pub secrets : Text → List String
  pub show_number : ℕ → Text

abbrev pub Mapping : Type 0
Mapping = List (Placeholder × Text)

pub record StripResult : Type 0 where
  pub stripped : Text
  pub mapping : Mapping
  pub found : List (String × Placeholder)

pub data EgressHalt : Type 0 where
  secret_egress_halt : List String → EgressHalt

unfoldable pub same_key : Placeholder → Placeholder → Bool
same_key (numbered k n) (numbered j m) = str_eq k j && n == m
same_key (other s) (other t) = same_codes s t
same_key _ _ = false

abbrev is_none_left {ℓ} : {A : Type ℓ} → List A → Bool
is_none_left [] = true
is_none_left (_ ∷ _) = false

-- The first group with a value, else the whole match.
unfoldable pub group_or : Span → List (Option Span) → Span
group_or whole [] = whole
group_or whole (none ∷ gs) = group_or whole gs
group_or whole (some g ∷ gs) =
    let rest = group_or whole gs in if is_none_left g.value then rest else g

pub record Finding : Type 0 where
  pub kind : String
  pub span : Span

-- `start < e and end > s`
abbrev overlaps : Span → Finding → Bool
overlaps a f = ltb a.start f.span.stop && ltb f.span.start a.stop

unfoldable pub add_match : String → Match → List Finding → List Finding
add_match kind m taken =
    let span = group_or m.whole m.groups in
    if any (overlaps span) taken then taken else taken ++ (record { kind = kind; span = span }) ∷ []

unfoldable pub add_matches : String → List Match → List Finding → List Finding
add_matches kind [] taken = taken
add_matches kind (m ∷ ms) taken = add_matches kind ms (add_match kind m taken)

-- `sorted(spans, key=start, reverse=True)`
abbrev put_in_order : Finding → List Finding → List Finding
put_in_order f [] = f ∷ []
put_in_order f (g ∷ gs) =
    let later = put_in_order f gs in if ltb g.span.start f.span.start then f ∷ g ∷ gs else g ∷ later

unfoldable pub last_first : List Finding → List Finding → List Finding
last_first sorted [] = sorted
last_first sorted (f ∷ fs) = last_first (put_in_order f sorted) fs

-- `counters.get(kind, 0)`
abbrev pub count_of : String → List (String × ℕ) → ℕ
count_of kind counters = elim (lookup kind counters) [ none ↦ 0 | some n ↦ n ]

abbrev pub larger : ℕ → ℕ → ℕ
larger a b = if leb a b then b else a

-- The counters go on from the map's placeholders.
unfoldable pub counters_from : Mapping → List (String × ℕ) → List (String × ℕ)
counters_from [] counters = counters
counters_from ((numbered kind n, v) ∷ m) counters =
    counters_from m (insert kind (larger (count_of kind counters) n) counters)
counters_from ((other s, v) ∷ m) counters = counters_from m counters

-- `reverse.get(value)`: the last placeholder of the value.
unfoldable pub placeholder_of : Text → Mapping → Option Placeholder
placeholder_of value [] = none
placeholder_of value ((k, v) ∷ m) = elim (placeholder_of value m) [
  | some j ↦ some j
  | none ↦ if same_codes v value then some k else none
]

-- `mapping[placeholder] = value`
unfoldable pub put_value : Placeholder → Text → Mapping → Mapping
put_value key value [] = (key, value) ∷ []
put_value key value ((k, v) ∷ m) =
    let later = put_value key value m in if same_key k key then (k, value) ∷ m else (k, v) ∷ later

-- The variables of the replacing loop; `reverse` is the map read backwards.
pub record Stripping : Type 0 where
  pub text : Text
  pub mapping : Mapping
  pub counters : List (String × ℕ)
  pub found : List (String × Placeholder)

abbrev take_codes : ℕ → Text → Text
take_codes zero s = []
take_codes (suc n) [] = []
take_codes (suc n) (c ∷ s) = c ∷ take_codes n s

abbrev drop_codes : ℕ → Text → Text
drop_codes zero s = s
drop_codes (suc n) [] = []
drop_codes (suc n) (c ∷ s) = drop_codes n s

module _ (patterns : Patterns) where
  unfoldable pub placeholder_text : Placeholder → Text
  placeholder_text (numbered kind n) =
      codes ("[" <> (kind <> "_")) ++ (patterns.show_number n ++ codes "]")
  placeholder_text (other s) = s

  -- A span is replaced by a placeholder; the findings are kept in the order of the text.
  unfoldable pub replace_span : Finding → Placeholder → Stripping → Stripping
  replace_span f key s = record s {
    text =
        take_codes f.span.start s.text ++ (placeholder_text key ++ drop_codes f.span.stop s.text);
    found = (f.kind, key) ∷ s.found;
  }

  -- A value that has no placeholder gets the next of its kind.
  unfoldable pub strip_span : Finding → Option Placeholder → Stripping → Stripping
  strip_span f (some key) s = replace_span f key s
  strip_span f none s =
      let n = suc (count_of f.kind s.counters) in
      replace_span f (numbered f.kind n) (record s {
        counters = insert f.kind n s.counters;
        mapping = put_value (numbered f.kind n) f.span.value s.mapping;
      })

  unfoldable pub strip_spans : List Finding → Stripping → Stripping
  strip_spans [] s = s
  strip_spans (f ∷ fs) s = strip_spans fs (strip_span f (placeholder_of f.span.value s.mapping) s)

  unfoldable pub find_all : List String → Text → List Finding → List Finding
  find_all [] text taken = taken
  find_all (kind ∷ kinds) text taken =
      find_all kinds text (add_matches kind (patterns.matches kind text) taken)

  abbrev result_of : Stripping → StripResult
  result_of s = record { stripped = s.text; mapping = s.mapping; found = s.found }

  -- `Boundary.strip`
  unfoldable pub strip : Text → Mapping → StripResult
  strip [] mapping = record { stripped = []; mapping = mapping; found = [] }
  strip (c ∷ text) mapping = result_of (
      strip_spans (last_first [] (find_all patterns.kinds (c ∷ text) [])) (record {
        text = c ∷ text;
        mapping = mapping;
        counters = counters_from mapping [];
        found = [];
      }))

  abbrev halt_on : List String → StripResult → Result EgressHalt StripResult
  halt_on [] r = ok r
  halt_on (k ∷ ks) r = raise (secret_egress_halt (k ∷ ks))

  -- `Boundary.guard_egress`
  unfoldable pub guard_egress : Text → Mapping → Result EgressHalt StripResult
  guard_egress text mapping = let r = strip text mapping in halt_on (patterns.secrets r.stripped) r
