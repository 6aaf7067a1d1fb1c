-- ===== src/Prelude/Lines.antt =====
-- Texts as lists of code points, and Python's `splitlines` and `strip`.
use Prim.Native.Nat.{ℕ}
use Prim.Native.Char.{code}
use Prim.Native.String.{String}
use mathlib.Core.Path.{◌≡◌, refl, ap, sym, ◌∙◌}
use mathlib.Core.Logic.{inl, inr}
use mathlib.Core.Bool.{Bool, true, false, ◌&&◌, ◌||◌}
use mathlib.Core.List.{List, [], ◌∷◌, ◌++◌, append_assoc, append-nil}
use harnessie.Prelude.Tests.{◌==◌, leb, if◌then◌else◌, Bool-cases}
use native.Mathlib.Omega.{arith}
use harnessie.Prelude.Lists.{all}

-- Where `str.splitlines` breaks a text: not only at "\n".
abbrev pub is_boundary : ℕ → Bool
is_boundary c =
    (leb 10 c && leb c 13) || (leb 28 c && leb c 30) || c == 0x85 || c == 0x2028 || c == 0x2029

-- What `str.strip` takes off.
abbrev pub is_space : ℕ → Bool
is_space c =
    (leb 9 c && leb c 13)
    || (leb 28 c && leb c 32)
    || c == 0x85
    || c == 0xa0
    || c == 0x1680
    || (leb 0x2000 c && leb c 0x200a)
    || c == 0x2028
    || c == 0x2029
    || c == 0x202f
    || c == 0x205f
    || c == 0x3000

-- `not line.strip()`
abbrev pub is_blank : List ℕ → Bool
is_blank = all is_space

abbrev last_line : List ℕ → List (List ℕ)
last_line [] = []
last_line (c ∷ cs) = (c ∷ cs) ∷ []

-- `acc` is the line so far; after "\r" a "\n" belongs to the same break.
pub split_from : List ℕ → Bool → List ℕ → List (List ℕ)
split_from acc cr [] = last_line acc
split_from acc cr (c ∷ cs) =
    let joined = split_from acc false cs in
    let broken = acc ∷ split_from [] (c == 13) cs in
    let longer = split_from (acc ++ c ∷ []) false cs in
    if cr && c == 10 then joined else if is_boundary c then broken else longer

unfoldable pub splitlines : List ℕ → List (List ℕ)
unfolding split_from
splitlines = split_from [] false

pub splitlines-nil : splitlines [] ≡ []
unfolding splitlines
splitlines-nil = refl

-- A text is in one line.
abbrev pub is_one_line : List ℕ → Bool
is_one_line = all (λ c. if is_boundary c then false else true)

split_from-boundary :
    (acc line rest : List ℕ) (c : ℕ)
    → is_boundary c ≡ true
    → is_one_line line ≡ true
    → split_from acc false (line ++ (c ∷ rest)) ≡ (acc ++ line) ∷ split_from [] (c == 13) rest
unfolding split_from
split_from-boundary acc [] rest c b h =
    rw b (ap (λ a. a ∷ split_from [] (c == 13) rest) (sym (append-nil acc)))
split_from-boundary acc (d ∷ line) rest c b h = elim (Bool-cases (is_boundary d)) [
  | inl e ↦ cc (rw e at h)
  | inr e ↦ rw e (
      split_from-boundary (acc ++ d ∷ []) line rest c b (rw e at h)
      ∙ ap (λ a. a ∷ split_from [] (c == 13) rest) (append_assoc acc (d ∷ []) line))
]

-- A written line that holds no other boundary is read back as it was written.
pub splitlines-line :
    (line rest : List ℕ)
    → is_one_line line ≡ true
    → splitlines (line ++ (10 ∷ rest)) ≡ line ∷ splitlines rest
unfolding splitlines
splitlines-line line rest h = split_from-boundary [] line rest 10 refl h

-- Any boundary ends a line, also one inside what was written as a line.
pub splitlines-boundary :
    (line rest : List ℕ) (c : ℕ)
    → is_boundary c ≡ true
    → is_one_line line ≡ true
    → splitlines (line ++ (c ∷ rest)) ≡ line ∷ split_from [] (c == 13) rest
unfolding splitlines
splitlines-boundary line rest c b h = split_from-boundary [] line rest c b h

-- The code points of a text.
abbrev pub codes : String → List ℕ
codes String.[] = []
codes (String.◌∷◌ c s) = code c ∷ codes s

abbrev pub same_codes : List ℕ → List ℕ → Bool
same_codes [] [] = true
same_codes (a ∷ s) (b ∷ t) = a == b && same_codes s t
same_codes _ _ = false

pub same_codes_eq : (s t : List ℕ) → same_codes s t ≡ true → s ≡ t
same_codes_eq [] [] h = refl
same_codes_eq (a ∷ s) (b ∷ t) h = ground (arith, same_codes_eq s t)
same_codes_eq [] (b ∷ t) h = cc
same_codes_eq (a ∷ s) [] h = cc

pub same_codes_refl : (s : List ℕ) → same_codes s s ≡ true
same_codes_refl [] = refl
same_codes_refl (a ∷ s) = ground (arith, same_codes_refl s)

-- `s.startswith(t)` on code points
abbrev pub starts_with : List ℕ → List ℕ → Bool
starts_with s [] = true
starts_with [] (b ∷ t) = false
starts_with (a ∷ s) (b ∷ t) = a == b && starts_with s t

abbrev pub occurs : List ℕ → List ℕ → Bool
occurs t [] = starts_with [] t
occurs t (a ∷ s) = starts_with (a ∷ s) t || occurs t s

-- `t in s`
abbrev pub is_part : String → String → Bool
is_part t s = occurs (codes t) (codes s)
