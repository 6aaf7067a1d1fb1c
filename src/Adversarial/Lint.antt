-- ===== src/Adversarial/Lint.antt =====
-- `lint_record` of harness/adversarial.py. Texts are lists of code points.
use harnessie.Prelude.{
  ℕ, zero, suc, String, Option, none, some, List, [], ◌∷◌, ◌++◌, Bool, true, false, not, ◌&&◌, ◌||◌,
  if◌then◌else◌, all, any, ltb, leb, codes, same_codes, starts_with, is_space, splitlines, length,
}
use harnessie.Prelude.Values.{Value, obj, Fields, end, get}

abbrev pub Text : Type 0
Text = List ℕ

-- `yaml.safe_load`, `none` for a YAMLError; `str(value)` as code points, and whether a value counts as true.
pub record Yaml : Type 0 where
  pub safe_load : Text → Option Value
  pub show : Value → Text
  pub truthy : Value → Bool

pub data LintError : Type 0 where
  missing_field missing_section : String → LintError
  invalid_status invalid_stance : Text → LintError
  missing_decided no_positions open_but_arbitrated incomplete_arbitration : LintError
  missing_meta : Text → String → LintError

pub record LintReport : Type 0 where
  pub errors : List LintError
  pub claims : List String
  pub status : Text
  pub decision : Text

abbrev pub drop_codes : ℕ → Text → Text
drop_codes zero s = s
drop_codes (suc n) [] = []
drop_codes (suc n) (c ∷ s) = drop_codes n s

abbrev pub is_none_left : Text → Bool
is_none_left [] = true
is_none_left (_ ∷ _) = false

abbrev pub rstrip : Text → Text
rstrip [] = []
rstrip (c ∷ s) = let rest = rstrip s in if is_none_left rest && is_space c then [] else c ∷ rest

abbrev pub lstrip : Text → Text
lstrip [] = []
lstrip (c ∷ s) = let rest = lstrip s in if is_space c then rest else c ∷ s

-- `s.strip()`
abbrev pub strip : Text → Text
strip s = lstrip (rstrip s)

-- The text before the first `sep`, and the text behind it.
abbrev pub cut_at : Text → Text → Option (Text × Text)
cut_at sep [] = none
cut_at sep (c ∷ s) =
    let rest = cut_at sep s in
    if starts_with (c ∷ s) sep
    then some ([], drop_codes (length sep) (c ∷ s))
    else elim rest [ none ↦ none | some parts ↦ some (c ∷ parts.0, parts.1) ]

abbrev before_cut : Option (Text × Text) → Text → Text
before_cut none s = s
before_cut (some parts) s = parts.0

abbrev fields_of : Option Value → Fields
fields_of (some (obj d)) = d
fields_of _ = end

abbrev pub find_text {ℓ} : {A : Type ℓ} → Text → List (Text × A) → Option A
find_text key [] = none
find_text key (entry ∷ others) =
    let later = find_text key others in if same_codes entry.0 key then some entry.1 else later

abbrev pub put_text {ℓ} : {A : Type ℓ} → Text → A → List (Text × A) → List (Text × A)
put_text key v [] = (key, v) ∷ []
put_text key v (entry ∷ others) =
    let later = put_text key v others in
    if same_codes entry.0 key then (key, v) ∷ others else entry ∷ later

abbrev or_nothing : Option Text → Text
or_nothing none = []
or_nothing (some s) = s

-- `_sections`, from a current section on.
unfoldable pub sections_from : Option Text → List (Text × Text) → List Text → List (Text × Text)
sections_from current out [] = out
sections_from current out (line ∷ lines) =
    let opened =
      sections_from (some (strip (drop_codes 3 line))) (put_text (strip (drop_codes 3 line)) [] out)
        lines in
    let skipped = sections_from none out lines in
    let grown = λ (key : Text).
      sections_from (some key)
        (put_text key (or_nothing (find_text key out) ++ (line ++ 10 ∷ [])) out) lines in
    if starts_with line (codes "## ")
    then opened
    else elim current [ none ↦ skipped | some key ↦ grown key ]

unfoldable pub sections : Text → List (Text × Text)
sections body = sections_from none [] (splitlines body)

-- A bullet `- key: value`, with both stripped.
unfoldable pub bullet : Text → Option (Text × Text)
bullet line =
    if starts_with line (codes "- ")
    then elim (cut_at (codes ":") (drop_codes 2 line)) [
      | none ↦ none
      | some parts ↦ some (strip parts.0, strip parts.1)
    ]
    else none

abbrev pub is_one_of : Text → List String → Bool
is_one_of s names = any (λ n. same_codes s (codes n)) names

abbrev meta_keys : List String
meta_keys = "agent" ∷ "model" ∷ "provider" ∷ "stance" ∷ "summary" ∷ []

pub record PositionMeta : Type 0 where
  pub label : Text
  pub entries : List (Text × Text)

abbrev set_default : Text → Text → List (Text × Text) → List (Text × Text)
set_default key v d = elim (find_text key d) [ none ↦ d ++ (key, v) ∷ [] | some _ ↦ d ]

-- A bullet of the last position: the first value of a key counts.
unfoldable pub add_meta : Option (Text × Text) → PositionMeta → PositionMeta
add_meta none m = m
add_meta (some (key, v)) m =
    if is_one_of key meta_keys then record m { entries = set_default key v m.entries } else m

abbrev label_of : Text → Text
label_of line = elim (cut_at (codes ":") line) [ none ↦ [] | some parts ↦ strip parts.1 ]

-- `_positions_meta`: the positions before, and the one that is read.
unfoldable pub metas_from : Option PositionMeta → List Text → List PositionMeta
metas_from none [] = []
metas_from (some m) [] = m ∷ []
metas_from current (line ∷ lines) =
    let opened = metas_from (some (record { label = label_of line; entries = [] })) lines in
    let skipped = metas_from none lines in
    let added = λ (m : PositionMeta). metas_from (some (add_meta (bullet line) m)) lines in
    if starts_with line (codes "### Position:")
    then elim current [ none ↦ opened | some m ↦ m ∷ opened ]
    else elim current [ none ↦ skipped | some m ↦ added m ]

unfoldable pub positions_meta : Text → List PositionMeta
positions_meta body = metas_from none (splitlines body)

abbrev pub arb_keys : List String
arb_keys = "decided_by" ∷ "date" ∷ "decision" ∷ []

unfoldable pub add_arb : Option (Text × Text) → List (Text × Text) → List (Text × Text)
add_arb none d = d
add_arb (some (key, v)) d =
    if is_one_of key arb_keys && not (is_none_left v) then put_text key v d else d

unfoldable pub arb_from : List (Text × Text) → List Text → List (Text × Text)
arb_from d [] = d
arb_from d (line ∷ lines) = arb_from (add_arb (bullet line) d) lines

-- `_arb_meta`
unfoldable pub arb_meta : Text → List (Text × Text)
arb_meta body = arb_from [] (splitlines body)

abbrev pub is_there {ℓ} : {A : Type ℓ} → Option A → Bool
is_there none = false
is_there (some _) = true

abbrev given : Option Text → Bool
given none = false
given (some s) = not (is_none_left s)

-- How often a non-empty text occurs, without overlap.
abbrev pub count_from : Text → ℕ → Text → ℕ
count_from t skip [] = 0
count_from t (suc skip) (c ∷ s) = count_from t skip s
count_from t zero (c ∷ s) =
    let further = count_from t (length t) s in
    let later = count_from t zero s in if starts_with (c ∷ s) t then suc further else later

abbrev stance_errors : PositionMeta → List LintError
stance_errors m = elim (find_text (codes "stance") m.entries) [
  | none ↦ []
  | some s ↦
      if is_none_left s || is_one_of s ("recommend" ∷ "oppose" ∷ "alternative" ∷ "abstain" ∷ [])
      then []
      else invalid_stance s ∷ []
]

abbrev missing_metas : PositionMeta → List String → List LintError
missing_metas m [] = []
missing_metas m (key ∷ rest) =
    let later = missing_metas m rest in
    if given (find_text (codes key) m.entries) then later else missing_meta m.label key ∷ later

unfoldable pub meta_errors : List PositionMeta → List LintError
meta_errors [] = []
meta_errors (m ∷ ms) = missing_metas m meta_keys ++ (stance_errors m ++ meta_errors ms)

abbrev pub section_errors : List (Text × Text) → List String → List LintError
section_errors found [] = []
section_errors found (name ∷ names) =
    let later = section_errors found names in
    if is_there (find_text (codes name) found) then later else missing_section name ∷ later

-- `all(k in arb for k in ("decided_by", "date", "decision"))`
unfoldable pub is_complete_arb : List (Text × Text) → Bool
is_complete_arb arb = all (λ k. is_there (find_text (codes k) arb)) arb_keys

abbrev pub error_if : Bool → LintError → List LintError
error_if true e = e ∷ []
error_if false e = []

abbrev pub claim_if : Bool → String → List String
claim_if true c = c ∷ []
claim_if false c = []

abbrev pub distinct_texts : List Text → List Text
distinct_texts [] = []
distinct_texts (t ∷ ts) =
    let rest = distinct_texts ts in if any (λ u. same_codes u t) ts then rest else t ∷ rest

abbrev pub providers_of : List PositionMeta → List Text
providers_of [] = []
providers_of (m ∷ ms) =
    let rest = providers_of ms in
    let p = or_nothing (find_text (codes "provider") m.entries) in
    if is_none_left p then rest else p ∷ rest

abbrev pub dissents : PositionMeta → Bool
dissents m =
    is_one_of (or_nothing (find_text (codes "stance") m.entries)) ("oppose" ∷ "alternative" ∷ [])

abbrev pub no_errors : List LintError → Bool
no_errors [] = true
no_errors (_ ∷ _) = false

abbrev pub section_of : String → List (Text × Text) → Text
section_of name found = or_nothing (find_text (codes name) found)

module _ (yaml : Yaml) where
  -- `_frontmatter`: the mapping, and the text up to the next `---` line.
  unfoldable pub frontmatter_of : Option Value → Text → Text → Fields × Text
  frontmatter_of none text body = (end, text)
  frontmatter_of (some v) text body = (fields_of (some v), body)

  unfoldable pub frontmatter : Text → Fields × Text
  frontmatter text =
      if starts_with text (codes "---")
      then elim (cut_at (codes "\n---") text) [
        | none ↦ (end, text)
        | some parts ↦
            frontmatter_of (yaml.safe_load (drop_codes 3 parts.0)) text
              (before_cut (cut_at (codes "\n---") parts.1) parts.1)
      ]
      else (end, text)

  abbrev pub filled : Option Value → Bool
  filled none = false
  filled (some v) = yaml.truthy v

  abbrev pub shown : Option Value → Text
  shown none = []
  shown (some v) = yaml.show v

  abbrev pub field_errors : Fields → List String → List LintError
  field_errors fm [] = []
  field_errors fm (name ∷ names) =
      let later = field_errors fm names in
      if filled (get name fm) then later else missing_field name ∷ later

  unfoldable pub status_errors : Fields → Text → List LintError
  status_errors fm status =
      error_if
        (not (is_none_left status)
          && not (is_one_of status ("open" ∷ "arbitrated" ∷ "superseded" ∷ [])))
        (invalid_status status)
      ++ error_if
          (is_one_of status ("arbitrated" ∷ "superseded" ∷ []) && not (filled (get "decided" fm)))
          missing_decided

  unfoldable pub lint_errors :
      Fields → Text → List (Text × Text) → List PositionMeta → Bool → List LintError
  lint_errors fm status found metas complete =
      field_errors fm ("id" ∷ "title" ∷ "status" ∷ "date" ∷ "arbiter" ∷ [])
      ++ (status_errors fm status
          ++ (section_errors found ("Context" ∷ "Question" ∷ "Positions" ∷ "Arbitration" ∷ [])
              ++ (error_if (ltb (length metas) 1) no_positions
                  ++ (meta_errors metas
                      ++ (error_if (is_one_of status ("open" ∷ []) && complete) open_but_arbitrated
                          ++ error_if (is_one_of status ("arbitrated" ∷ []) && not complete)
                              incomplete_arbitration)))))

  -- The claims that a record has earned.
  unfoldable pub earned :
      List LintError → Text → List (Text × Text) → List PositionMeta → Bool → List String
  earned errors status found metas complete =
      claim_if (leb 2 (length metas) && leb 2 (length (distinct_texts (providers_of metas))))
        "independent-positions"
      ++ (claim_if
            ((ltb 0 (count_from (codes "### Objection:") 0 (section_of "Objections" found))
                || any dissents metas)
              && complete)
            "dissent-preserved"
          ++ claim_if (is_one_of status ("arbitrated" ∷ []) && complete && no_errors errors)
              "human-arbitrated")

  unfoldable pub report_lint :
      Fields → Text → List (Text × Text) → List PositionMeta → List (Text × Text) → LintReport
  report_lint fm status found metas arb =
      let errors = lint_errors fm status found metas (is_complete_arb arb) in
      record {
        errors = errors;
        claims = earned errors status found metas (is_complete_arb arb);
        status = status;
        decision = or_nothing (find_text (codes "decision") arb);
      }

  unfoldable pub lint_record : Text → LintReport
  lint_record text =
      let (fm, body) = frontmatter text in
      let found = sections body in
      report_lint fm (shown (get "status" fm)) found (positions_meta (section_of "Positions" found))
        (arb_meta (section_of "Arbitration" found))
