-- ===== src/Prelude/Texts.antt =====
-- Lists of texts: `x in xs`, `xs.index(x)`, and a dictionary with text keys.
use Prim.Native.Nat.{ℕ, zero, suc, ◌<◌, ◌≤◌}
use Prim.Native.String.{String}
use mathlib.Core.Path.{◌≡◌, refl}
use mathlib.Core.Logic.{inl, inr}
use mathlib.Core.Bool.{Bool, true, false, ◌||◌}
use mathlib.Core.Option
use mathlib.Core.Option.{Option, none, some}
use mathlib.Core.List.{List, [], ◌∷◌}
use native.Mathlib.Omega.{arith}
use text.Mathlib.Text.{◌==◌}
use text.Mathlib.TextEquality.{eq_iff}
use harnessie.Prelude.Tests.{if◌then◌else◌, Bool-cases}
use harnessie.Prelude.Lists.{length, get_elem?}

-- `==` of two texts.
abbrev pub str_eq : String → String → Bool
str_eq s t = s == t

-- `s[:n]`: the first `n` characters.
abbrev pub clip : ℕ → String → String
clip zero s = ""
clip (suc n) String.[] = ""
clip (suc n) (String.◌∷◌ c s) = String.◌∷◌ c (clip n s)

-- `x in xs`
abbrev pub mem : String → List String → Bool
mem k [] = false
mem k (x ∷ xs) = str_eq x k || mem k xs

-- `xs.index(x)`; `none` stands for the ValueError
abbrev pub index : String → List String → Option ℕ
index k [] = none
index k (x ∷ xs) = if str_eq x k then some zero else Option.map suc (index k xs)

module _ {ℓ} {V : Type ℓ} where
  -- `d.get(k)`
  abbrev pub lookup : String → List (String × V) → Option V
  lookup key [] = none
  lookup key (entry ∷ others) =
      let later = lookup key others in if str_eq entry.0 key then some entry.1 else later

  -- `d[k] = v`: a known key keeps its place
  abbrev pub insert : String → V → List (String × V) → List (String × V)
  insert key value [] = (key, value) ∷ []
  insert key value (entry ∷ others) =
      let later = insert key value others in
      if str_eq entry.0 key then (key, value) ∷ others else entry ∷ later

  pub lookup-insert :
      (k j : String) (v : V) (d : List (String × V))
      → lookup j (insert k v d) ≡ (if str_eq k j then some v else lookup j d)
  lookup-insert k j v [] = refl
  lookup-insert k j v ((i, w) ∷ d) =
      ground (arith, eq_iff k j, eq_iff i k, eq_iff i j, lookup-insert k j v d)

abbrev pub names_of {ℓ} : {V : Type ℓ} → List (String × V) → List String
names_of [] = []
names_of (entry ∷ others) = entry.0 ∷ names_of others

-- A key that is there is found.
pub lookup-mem {ℓ} :
    {V : Type ℓ} (k : String) (d : List (String × V))
    → mem k (names_of d) ≡ true
    → (v : V) × (lookup k d ≡ some v)
lookup-mem k [] h = cc
lookup-mem k ((i, w) ∷ d) h = elim (Bool-cases (str_eq i k)) [
  | inl e ↦ (w, rw e refl)
  | inr e ↦ let (v, found) = lookup-mem k d (rw e at h) in (v, rw (e, found) refl)
]

pub str_eq_refl : (s : String) → str_eq s s ≡ true
str_eq_refl s = (eq_iff s s).1 refl

-- What `index` finds stands there.
pub get_elem?-index :
    (k : String) (xs : List String) (i : ℕ) → index k xs ≡ some i → get_elem? xs i ≡ some k
get_elem?-index k [] i h = ground arith
get_elem?-index k (x ∷ xs) zero h = ground (arith, eq_iff x k, get_elem?-index k xs zero)
get_elem?-index k (x ∷ xs) (suc i) h = ground (arith, eq_iff x k, get_elem?-index k xs i)

pub index-lt-length : (k : String) (xs : List String) (i : ℕ) → index k xs ≡ some i → i < length xs
index-lt-length k [] i h = ground arith
index-lt-length k (x ∷ xs) zero h = omega arith
index-lt-length k (x ∷ xs) (suc i) h = ground (arith, index-lt-length k xs i)

-- `x in xs` exactly when `xs.index(x)` does not raise.
pub mem-index : (k : String) (xs : List String) → mem k xs ≡ true → (i : ℕ) × (index k xs ≡ some i)
mem-index k [] h = cc
mem-index k (x ∷ xs) h = elim (Bool-cases (str_eq x k)) [
  | inl e ↦ (0, rw e refl)
  | inr e ↦ let (i, found) = mem-index k xs (rw e at h) in (suc i, rw (e, found) refl)
]

pub not_mem-index : (k : String) (xs : List String) → mem k xs ≡ false → index k xs ≡ none
not_mem-index k [] h = refl
not_mem-index k (x ∷ xs) h = ground (arith, not_mem-index k xs)

pub mem_of_get_elem? :
    (k : String) (xs : List String) (i : ℕ) → get_elem? xs i ≡ some k → mem k xs ≡ true
mem_of_get_elem? k [] i h = ground arith
mem_of_get_elem? k (x ∷ xs) zero h = ground (arith, eq_iff x k)
mem_of_get_elem? k (x ∷ xs) (suc i) h = ground (arith, mem_of_get_elem? k xs i h)

-- `set(xs)`, as the list of its items.
abbrev pub distinct : List String → List String
distinct [] = []
distinct (x ∷ xs) = let rest = distinct xs in if mem x xs then rest else x ∷ rest

pub length-distinct : (xs : List String) → length (distinct xs) ≤ length xs
length-distinct [] = omega arith
length-distinct (x ∷ xs) = ground (arith, length-distinct xs)

-- Where nothing is repeated, `index` finds an item where it stands.
pub index-get_elem? :
    (k : String) (xs : List String) (i : ℕ)
    → length (distinct xs) ≡ length xs
    → get_elem? xs i ≡ some k
    → index k xs ≡ some i
index-get_elem? k [] i d h = cc
index-get_elem? k (x ∷ xs) zero d h = ground (arith, eq_iff x k)
index-get_elem? k (x ∷ xs) (suc i) d h =
    ground
      (arith, eq_iff x k, length-distinct xs, index-get_elem? k xs i, mem_of_get_elem? k xs i h)

pub get_elem?-lt {ℓ} :
    {A : Type ℓ} (xs : List A) (i : ℕ) → i < length xs → (a : A) × (get_elem? xs i ≡ some a)
get_elem?-lt [] i h = absurd (omega arith)
get_elem?-lt (x ∷ xs) zero h = (x, refl)
get_elem?-lt (x ∷ xs) (suc i) h = get_elem?-lt xs i (omega arith)

-- `[x for x in xs if x not in ys]`
abbrev pub outside : List String → List String → List String
outside ys [] = []
outside ys (x ∷ xs) = let rest = outside ys xs in if mem x ys then rest else x ∷ rest

-- An empty difference is inclusion.
pub mem_of_outside :
    (ys xs : List String) (k : String) → outside ys xs ≡ [] → mem k xs ≡ true → mem k ys ≡ true
mem_of_outside ys [] k h m = cc
mem_of_outside ys (x ∷ xs) k h m = ground (arith, eq_iff x k, mem_of_outside ys xs k)
