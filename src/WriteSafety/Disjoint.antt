-- ===== src/WriteSafety/Disjoint.antt =====
-- Overlaps of declarations in harness/write_safety.py, and the paths they cover.
use mathlib.Core.List.{append-nil}
use harnessie.Prelude.{
  All, ◌≡◌, ◌↔◌, refl, sym, subst, ◌∙◌, ◌⊎◌, inl, inr, String, List, [], ◌∷◌, ◌++◌, Bool, true,
  false, ◌||◌, if◌then◌else◌, any, all, same_codes_eq, same_codes_refl, str_eq, Result, ok, raise,
  ◌>>=◌, arith, Bool-cases,
}
use harnessie.WriteSafety.{
  WriteDeclarationError, Segment, WritePath, Phase, same_parts, is_prefix, is_declared, declared,
  comparison_parts, contains, overlap, conflicts_with, conflicts_in, parallel_write_conflicts,
}

same_parts_eq : (p q : List Segment) → same_parts p q ≡ true → p ≡ q
unfolding same_parts
same_parts_eq [] [] h = refl
same_parts_eq (s ∷ p) (t ∷ q) h = ground (arith, same_codes_eq s t, same_parts_eq p q)
same_parts_eq [] (t ∷ q) h = cc
same_parts_eq (s ∷ p) [] h = cc

same_parts_refl : (p : List Segment) → same_parts p p ≡ true
unfolding same_parts
same_parts_refl [] = refl
same_parts_refl (s ∷ p) = ground (arith, same_codes_refl s, same_parts_refl p)

is_prefix-append : (p rest : List Segment) → is_prefix p (p ++ rest) ≡ true
unfolding is_prefix
is_prefix-append [] rest = refl
is_prefix-append (s ∷ p) rest = ground (arith, same_codes_refl s, is_prefix-append p rest)

append_of_prefix :
    (p q : List Segment) → is_prefix p q ≡ true → (rest : List Segment) × (q ≡ p ++ rest)
unfolding is_prefix
append_of_prefix [] q h = (q, refl)
append_of_prefix (s ∷ p) [] h = cc
append_of_prefix (s ∷ p) (t ∷ q) h =
    let (rest, e) = append_of_prefix p q (ground arith) in
    (rest, ground (arith, same_codes_eq s t, e))

-- Of two prefixes of one path, one is a prefix of the other.
prefix_total :
    (p q a b : List Segment) → p ++ a ≡ q ++ b → (is_prefix p q ≡ true) ⊎ (is_prefix q p ≡ true)
unfolding is_prefix
prefix_total [] q a b h = inl refl
prefix_total (s ∷ p) [] a b h = inr refl
prefix_total (s ∷ p) (t ∷ q) a b h = elim (prefix_total p q a b (cc h)) [
  | inl e ↦ inl (ground (arith, same_codes_refl s, h))
  | inr e ↦ inr (ground (arith, same_codes_refl s, h))
]

ok_injective : {E A : Type 0} {a b : A} → ◌≡◌ {A = Result E A} (ok a) (ok b) → a ≡ b
ok_injective h = cc

or_true : (b : Bool) → (b || true) ≡ true
or_true b = ground arith

nil_of_append {ℓ} : {A : Type ℓ} (xs ys : List A) → xs ++ ys ≡ [] → (xs ≡ []) × (ys ≡ [])
nil_of_append [] ys h = (refl, h)
nil_of_append (x ∷ xs) ys h = cc

-- A declaration covers a path in comparison form: the file itself, or anything below the directory.
abbrev CoversIf : Bool → List Segment → List Segment → Type 0
CoversIf true p q = (rest : List Segment) × (q ≡ p ++ rest)
CoversIf false p q = q ≡ p

abbrev contains_if : Bool → List Segment → List Segment → Bool
contains_if d p q = if d then is_prefix p q else same_parts p q

covers_of_contains : (d : Bool) (p q : List Segment) → contains_if d p q ≡ true → CoversIf d p q
covers_of_contains true p q h = append_of_prefix p q h
covers_of_contains false p q h = sym (same_parts_eq p q h)

covers_self : (d : Bool) (p : List Segment) → CoversIf d p p
covers_self true p = ([], sym (append-nil p))
covers_self false p = refl

contains_of_shared :
    (d e : Bool) (p r q : List Segment)
    → CoversIf d p q
    → CoversIf e r q
    → (contains_if d p r ≡ true) ⊎ (contains_if e r p ≡ true)
contains_of_shared true true p r q (a, h) (b, k) = prefix_total p r a b (sym h ∙ k)
contains_of_shared true false p r q (a, h) k =
    inl (subst (λ x. is_prefix p x ≡ true) (sym h ∙ k) (is_prefix-append p a))
contains_of_shared false true p r q h (b, k) =
    inr (subst (λ x. is_prefix r x ≡ true) (sym k ∙ h) (is_prefix-append r b))
contains_of_shared false false p r q h k =
    inl (subst (λ x. same_parts p x ≡ true) (sym h ∙ k) (same_parts_refl p))

module _ (fold : Segment → Segment) where
  abbrev pub Covers : WritePath → List Segment → Type 0
  Covers p q = CoversIf p.directory (comparison_parts fold p) q

  -- Some path in comparison form is covered by both declarations.
  abbrev pub Shared : WritePath → WritePath → Type 0
  Shared left right = (q : List Segment) × Covers left q × Covers right q

  Shared-of_overlap : (left right : WritePath) → overlap fold left right ≡ true → Shared left right
  unfolding overlap contains
  Shared-of_overlap left right h =
      let p = comparison_parts fold left in
      let r = comparison_parts fold right in
      elim (Bool-cases (contains_if left.directory p r)) [
        | inl e ↦ (r, covers_of_contains left.directory p r e, covers_self right.directory r)
        | inr e ↦
            (p, covers_self left.directory p, covers_of_contains right.directory r p (rw e at h))
      ]

  overlap_of_Shared : (left right : WritePath) → Shared left right → overlap fold left right ≡ true
  unfolding overlap contains
  overlap_of_Shared left right (q, h, k) =
      elim (contains_of_shared left.directory right.directory _ _ q h k) [
        | inl e ↦ rw e refl
        | inr e ↦ rw e (or_true _)
      ]

  -- Two declarations belong to one phase, or share no path.
  abbrev pub Apart : String → WritePath → String × WritePath → Type 0
  Apart name left d = (str_eq name d.0 ≡ true) ⊎ (¬ Shared left d.1)

  -- Every two declarations are apart.
  abbrev pub AllApart : List (String × WritePath) → Type 0
  AllApart [] = Unit
  AllApart (d ∷ ds) = All (Apart d.0 d.1) ds × AllApart ds

  conflicts_with-nil :
      (name : String) (left : WritePath) (ds : List (String × WritePath))
      → conflicts_with fold name left ds ≡ []
      → All (Apart name left) ds
  unfolding conflicts_with
  conflicts_with-nil name left [] h = tt
  conflicts_with-nil name left ((other, right) ∷ ds) h = elim (Bool-cases (str_eq name other)) [
    | inl e ↦ (inl e, conflicts_with-nil name left ds (rw e at h))
    | inr e ↦ elim (Bool-cases (overlap fold left right)) [
      | inl f ↦ cc (rw (e, f) at h)
      | inr f ↦ (
        inr (λ s. cc (f, overlap_of_Shared left right s)),
        conflicts_with-nil name left ds (rw (e, f) at h),
      )
    ]
  ]

  nil-conflicts_with :
      (name : String) (left : WritePath) (ds : List (String × WritePath))
      → All (Apart name left) ds
      → conflicts_with fold name left ds ≡ []
  unfolding conflicts_with
  nil-conflicts_with name left [] h = refl
  nil-conflicts_with name left ((other, right) ∷ ds) (inl e, h) =
      rw e (nil-conflicts_with name left ds h)
  nil-conflicts_with name left ((other, right) ∷ ds) (inr f, h) =
      elim (Bool-cases (overlap fold left right)) [
        | inl e ↦ absurd (f (Shared-of_overlap left right e))
        | inr e ↦ ground (arith, e, nil-conflicts_with name left ds h)
      ]

  conflicts_in-nil : (ds : List (String × WritePath)) → conflicts_in fold ds ≡ [] → AllApart ds
  unfolding conflicts_in
  conflicts_in-nil [] h = tt
  conflicts_in-nil ((name, left) ∷ ds) h =
      let (here, later) = nil_of_append (conflicts_with fold name left ds) _ h in
      (conflicts_with-nil name left ds here, conflicts_in-nil ds later)

  nil-conflicts_in : (ds : List (String × WritePath)) → AllApart ds → conflicts_in fold ds ≡ []
  unfolding conflicts_in
  nil-conflicts_in [] h = refl
  nil-conflicts_in ((name, left) ∷ ds) (here, later) =
      rw (nil-conflicts_with name left ds here, nil-conflicts_in ds later) refl

  admitted :
      (found : Result WriteDeclarationError (List (String × WritePath)))
      → (found >>= λ ds. ok (conflicts_in fold ds)) ≡ ok []
      → (ds : List (String × WritePath)) × (found ≡ ok ds) × AllApart ds
  admitted (ok ds) h = (ds, refl, conflicts_in-nil ds (ok_injective h))
  admitted (raise e) h = cc

  -- A group in which some phase declares its writes is admitted without a conflict exactly if the
  -- declarations of all its phases can be read and no path, up to the comparison form, is covered by
  -- the declarations of two phases.
  pub parallel_write_conflicts-AllApart :
      (phases : List Phase)
      → any is_declared phases ≡ true
      → (parallel_write_conflicts fold phases ≡ ok []) ↔ (
          (all is_declared phases ≡ true)
          × ((ds : List (String × WritePath)) × (declared phases ≡ ok ds) × AllApart ds))
  unfolding parallel_write_conflicts
  parallel_write_conflicts-AllApart phases opted = rw opted (
    (λ h. elim (Bool-cases (all is_declared phases)) [
      | inl e ↦ (e, admitted (declared phases) (rw e at h))
      | inr e ↦ absurd (cc (rw e at h))
    ]),
    (λ k. rw (k.0, k.1.1) (rw (nil-conflicts_in k.1.0 k.1.2) refl)),
  )
