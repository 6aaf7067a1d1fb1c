-- ===== src/Events/Tamper.antt =====
-- What the check of the chain in harness/events.py says about two logs.
use harnessie.Prelude.{
  ℕ, ◌+◌, ◌≡◌, refl, ap, sym, ◌∙◌, String, Option, none, some, List, [], ◌∷◌, true, length, arith,
  inl, inr, Bool-cases, subst, eq_iff,
}
use harnessie.Prelude.Values.{Value, str}
use harnessie.Events.{
  Wire, genesis, prev_after, is_link, is_text, is_number, field_of, breaks_from, verify_chain_lines,
}

abbrev get_last? : List (List ℕ) → Option (List ℕ)
get_last? [] = none
get_last? (l ∷ []) = some l
get_last? (l ∷ k ∷ ls) = get_last? (k ∷ ls)

text_unique : (s t : String) (v : Option Value) → is_text s v ≡ true → is_text t v ≡ true → s ≡ t
text_unique s t (some (str u)) h k = ground (arith, eq_iff u s, eq_iff u t)
text_unique s t v h k = ground arith

number_unique : (m n : ℕ) (v : Option Value) → is_number m v ≡ true → is_number n v ≡ true → m ≡ n
number_unique m n v h k = ground arith

-- A line links to one predecessor only.
is_link_unique :
    (p q : String) (m n : ℕ) (v : Option Value)
    → is_link p m v ≡ true
    → is_link q n v ≡ true
    → (p ≡ q) × (m ≡ n)
unfolding is_link
is_link_unique p q m n v h k = (
  text_unique p q (field_of "prev" v) (ground arith) (ground arith),
  omega (arith, number_unique (m + 1) (n + 1) (field_of "seq" v) (ground arith) (ground arith)),
)

module _ (wire : Wire) where
  open wire use {loads, line_hash}

  -- SHA-256 tells the lines of the two logs apart, place by place.
  abbrev pub NoCollision : List (List ℕ) → List (List ℕ) → Type 0
  NoCollision (x ∷ xs) (y ∷ ys) = (line_hash x ≡ line_hash y → x ≡ y) × NoCollision xs ys
  NoCollision _ _ = Unit

  -- The chain of a log that verifies.
  abbrev pub Linked : String → ℕ → List (List ℕ) → Type 0
  Linked p s [] = Unit
  Linked p s (l ∷ ls) = (is_link p s (loads l) ≡ true) × Linked (line_hash l) (s + 1) ls

  pub breaks_from-Linked :
      (p : String) (s n : ℕ) (ls : List (List ℕ)) → breaks_from wire p s n ls ≡ [] → Linked p s ls
  unfolding breaks_from
  breaks_from-Linked p s n [] h = tt
  breaks_from-Linked p s n (l ∷ ls) h = elim (Bool-cases (is_link p s (loads l))) [
    | inl e ↦ (e, breaks_from-Linked (line_hash l) (s + 1) (n + 1) ls (rw e at h))
    | inr e ↦ cc (rw e at h)
  ]

  same_tail :
      (p q : String) (s t : ℕ) (xs ys : List (List ℕ))
      → Linked p s xs
      → Linked q t ys
      → NoCollision xs ys
      → length xs ≡ length ys
      → prev_after wire p xs ≡ prev_after wire q ys
      → (p ≡ q) × (xs ≡ ys)
  same_tail p q s t [] [] h k c n e = (e, refl)
  same_tail p q s t [] (y ∷ ys) h k c n e = absurd (omega arith)
  same_tail p q s t (x ∷ xs) [] h k c n e = absurd (omega arith)
  same_tail p q s t (x ∷ xs) (y ∷ ys) h k c n e =
      let (hashes, rest) =
        same_tail (line_hash x) (line_hash y) (s + 1) (t + 1) xs ys h.1 k.1 c.1 (omega arith) e in
      let same : x ≡ y = c.0 hashes in
      (
        (is_link_unique p q s t (loads y) (subst (λ l. is_link p s (loads l) ≡ true) same h.0)
            k.0).0,
        λ i. same i ∷ rest i,
      )

  -- The last line fixes where the chain stands.
  last_link :
      (p : String) (s : ℕ) (l : List ℕ) (xs : List (List ℕ))
      → Linked p s xs
      → get_last? xs ≡ some l
      → (q : String) × (k : ℕ) × (is_link q k (loads l) ≡ true)
        × (k + 1 ≡ s + length xs)
        × (prev_after wire p xs ≡ line_hash l)
  last_link p s l [] h e = cc
  last_link p s l (x ∷ []) h e =
      let same : x ≡ l = cc in
      (p, s, subst (λ m. is_link p s (loads m) ≡ true) same h.0, refl, ap line_hash same)
  last_link p s l (x ∷ y ∷ xs) h e =
      let (q, k, a, b, c) = last_link (line_hash x) (s + 1) l (y ∷ xs) h.1 e in
      (q, k, a, omega (arith, b), c)

  pub nothing_breaks :
      (xs : List (List ℕ))
      → (verify_chain_lines wire xs).is_ok ≡ true
      → breaks_from wire genesis 0 1 xs ≡ []
  unfolding verify_chain_lines
  nothing_breaks xs h = ground arith

  -- Two logs that verify and end in the same line are the same log, as long as the hash tells their
  -- lines apart: no edit, removal, insertion or reordering before the last line goes undetected.
  pub tamper_evident :
      (xs ys : List (List ℕ)) (l : List ℕ)
      → (verify_chain_lines wire xs).is_ok ≡ true
      → (verify_chain_lines wire ys).is_ok ≡ true
      → get_last? xs ≡ some l
      → get_last? ys ≡ some l
      → NoCollision xs ys
      → xs ≡ ys
  tamper_evident xs ys l hx hy ex ey c =
      let cx = breaks_from-Linked genesis 0 1 xs (nothing_breaks xs hx) in
      let cy = breaks_from-Linked genesis 0 1 ys (nothing_breaks ys hy) in
      let (q, k, a, b, d) = last_link genesis 0 l xs cx ex in
      let (r, m, a', b', d') = last_link genesis 0 l ys cy ey in
      let places = (is_link_unique q r k m (loads l) a a').1 in
      (same_tail genesis genesis 0 0 xs ys cx cy c (omega (arith, b, b', places)) (d ∙ sym d')).1
