-- ===== src/Boundary/OneToOne.antt =====
-- The strip map of harness/boundary.py under `Boundary.strip`.
use harnessie.Prelude.{
  ℕ, suc, ◌≤◌, ◌≡◌, refl, sym, ap, ◌∙◌, subst, String, Option, none, some, List, [], ◌∷◌, ◌++◌,
  Bool, true, false, if◌then◌else◌, str_eq, lookup, insert, lookup-insert, same_codes, All,
  All-append, arith, eq_iff,
}
use mathlib.Core.List.{append_assoc, append-nil}
use harnessie.Boundary.{
  Text, Placeholder, numbered, other, Mapping, Stripping, Finding, Patterns, same_key, count_of,
  larger, counters_from, placeholder_of, put_value, replace_span, strip_span, strip_spans, find_all,
  last_first, strip,
}

-- Two entries with different placeholders and different values.
abbrev pub Differ : Placeholder × Text → Placeholder × Text → Type 0
Differ a b = (same_key a.0 b.0 ≡ false) × (same_codes a.1 b.1 ≡ false)

abbrev pub OneToOne : Mapping → Type 0
OneToOne [] = Unit
OneToOne (e ∷ m) = All (Differ e) m × OneToOne m

-- The counter of a placeholder's kind is not below its number.
abbrev Counted : List (String × ℕ) → Placeholder × Text → Type 0
Counted counters (numbered kind n, v) = n ≤ count_of kind counters
Counted counters (other s, v) = Unit

append-OneToOne :
    (m : Mapping) (e : Placeholder × Text)
    → OneToOne m
    → All (λ d. Differ d e) m
    → OneToOne (m ++ e ∷ [])
append-OneToOne [] e o h = (tt, tt)
append-OneToOne (d ∷ m) e (a, o) (h, hs) =
    (All-append (Differ d) m (e ∷ []) a (h, tt), append-OneToOne m e o hs)

put_value-fresh :
    (key : Placeholder) (value : Text) (m : Mapping)
    → All (λ (d : Placeholder × Text). same_key d.0 key ≡ false) m
    → put_value key value m ≡ m ++ (key, value) ∷ []
unfolding put_value
put_value-fresh key value [] h = refl
put_value-fresh key value ((k, v) ∷ m) (e, h) =
    rw e (ap (λ l. (k, v) ∷ l) (put_value-fresh key value m h))

first_or-none :
    (k : Placeholder) (b : Bool) (o : Option Placeholder)
    → elim o [ some j ↦ some j | none ↦ if b then some k else none ] ≡ none
    → (o ≡ none) × (b ≡ false)
first_or-none k true none h = absurd (cc h)
first_or-none k false none h = (refl, refl)
first_or-none k b (some j) h = absurd (cc h)

placeholder_of-none :
    (value : Text) (m : Mapping)
    → placeholder_of value m ≡ none
    → All (λ (d : Placeholder × Text). same_codes d.1 value ≡ false) m
unfolding placeholder_of
placeholder_of-none value [] h = tt
placeholder_of-none value ((k, v) ∷ m) h =
    let (later, here) = first_or-none k (same_codes v value) (placeholder_of value m) h in
    (here, placeholder_of-none value m later)

count_if :
    (b : Bool) (n : ℕ) (o : Option ℕ)
    → elim (if b then some n else o) [ none ↦ 0 | some i ↦ i ]
      ≡ (if b then n else elim o [ none ↦ 0 | some i ↦ i ])
count_if true n o = refl
count_if false n o = refl

count_of-insert :
    (kind k : String) (n : ℕ) (cs : List (String × ℕ))
    → count_of k (insert kind n cs) ≡ (if str_eq kind k then n else count_of k cs)
count_of-insert kind k n cs =
    ap (λ (o : Option ℕ). elim o [ none ↦ 0 | some i ↦ i ]) (lookup-insert kind k n cs)
    ∙ count_if (str_eq kind k) n (lookup k cs)

unused :
    (kind : String) (cs : List (String × ℕ)) (d : Placeholder × Text)
    → Counted cs d
    → same_key d.0 (numbered kind (suc (count_of kind cs))) ≡ false
unfolding same_key
unused kind cs (numbered k n, v) h = ground (arith, h, eq_iff k kind)
unused kind cs (other s, v) h = refl

-- A larger count of a kind keeps every number counted.
raise-Counted :
    (kind : String) (n : ℕ) (cs : List (String × ℕ)) (d : Placeholder × Text)
    → count_of kind cs ≤ n
    → Counted cs d
    → Counted (insert kind n cs) d
raise-Counted kind n cs (numbered k i, v) grows h =
    subst (λ c. i ≤ c) (sym (count_of-insert kind k n cs)) (ground (arith, h, grows, eq_iff kind k))
raise-Counted kind n cs (other s, v) grows h = tt

raise-all :
    (kind : String) (n : ℕ) (cs : List (String × ℕ)) (m : Mapping)
    → count_of kind cs ≤ n
    → All (Counted cs) m
    → All (Counted (insert kind n cs)) m
raise-all kind n cs [] grows h = tt
raise-all kind n cs (d ∷ m) grows (h, hs) =
    (raise-Counted kind n cs d grows h, raise-all kind n cs m grows hs)

count_of-here :
    (kind : String) (n : ℕ) (cs : List (String × ℕ)) → count_of kind (insert kind n cs) ≡ n
count_of-here kind n cs = count_of-insert kind kind n cs ∙ ground (arith, eq_iff kind kind)

counters_from-keeps :
    (m : Mapping) (cs : List (String × ℕ)) (d : Placeholder × Text)
    → Counted cs d
    → Counted (counters_from m cs) d
unfolding counters_from
counters_from-keeps [] cs d h = h
counters_from-keeps ((numbered kind n, v) ∷ m) cs d h =
    counters_from-keeps m _ d
      (raise-Counted kind (larger (count_of kind cs) n) cs d (ground arith) h)
counters_from-keeps ((other s, v) ∷ m) cs d h = counters_from-keeps m cs d h

counters_from-all : (m : Mapping) (cs : List (String × ℕ)) → All (Counted (counters_from m cs)) m
unfolding counters_from
counters_from-all [] cs = tt
counters_from-all ((numbered kind n, v) ∷ m) cs = (
  counters_from-keeps m _ (numbered kind n, v)
      (subst (λ c. n ≤ c) (sym (count_of-here kind (larger (count_of kind cs) n) cs))
        (ground arith)),
  counters_from-all m _,
)
counters_from-all ((other s, v) ∷ m) cs = (tt, counters_from-all m cs)

fresh_key :
    (kind : String) (cs : List (String × ℕ)) (m : Mapping)
    → All (Counted cs) m
    → All
        (λ (d : Placeholder × Text). same_key d.0 (numbered kind (suc (count_of kind cs))) ≡ false)
        m
fresh_key kind cs [] h = tt
fresh_key kind cs (d ∷ m) (h, hs) = (unused kind cs d h, fresh_key kind cs m hs)

both-Differ :
    (e : Placeholder × Text) (m : Mapping)
    → All (λ (d : Placeholder × Text). same_key d.0 e.0 ≡ false) m
    → All (λ (d : Placeholder × Text). same_codes d.1 e.1 ≡ false) m
    → All (λ d. Differ d e) m
both-Differ e [] h k = tt
both-Differ e (d ∷ m) (h, hs) (k, ks) = ((h, k), both-Differ e m hs ks)

abbrev fresh_entry : Finding → Stripping → Placeholder × Text
fresh_entry f s = (numbered f.kind (suc (count_of f.kind s.counters)), f.span.value)

module _ (patterns : Patterns) where
  -- The map of a stripping has grown from `m`, is one to one, and its numbers are counted.
  record Grown (m : Mapping) (s : Stripping) : Type 0 where
    new : Mapping
    grown : s.mapping ≡ m ++ new
    single : OneToOne s.mapping
    counted : All (Counted s.counters) s.mapping

  strip_span-Grown :
      (m : Mapping) (f : Finding) (s : Stripping) (o : Option Placeholder)
      → placeholder_of f.span.value s.mapping ≡ o
      → Grown m s
      → Grown m (strip_span patterns f o s)
  unfolding strip_span replace_span
  strip_span-Grown m f s (some key) e g = record {
    new = g.new;
    grown = g.grown;
    single = g.single;
    counted = g.counted;
  }
  strip_span-Grown m f s none e g =
      let n = suc (count_of f.kind s.counters) in
      let entry = fresh_entry f s in
      let keys = fresh_key f.kind s.counters s.mapping g.counted in
      let values = placeholder_of-none f.span.value s.mapping e in
      let put = put_value-fresh (numbered f.kind n) f.span.value s.mapping keys in
      record {
        new = g.new ++ entry ∷ [];
        grown = put ∙ ap (λ l. l ++ entry ∷ []) g.grown ∙ append_assoc m g.new (entry ∷ []);
        single =
            subst OneToOne (sym put)
              (append-OneToOne s.mapping entry g.single (both-Differ entry s.mapping keys values));
        counted = subst (All (Counted (insert f.kind n s.counters))) (sym put) (
            All-append _ s.mapping (entry ∷ [])
              (raise-all f.kind n s.counters s.mapping (omega arith) g.counted)
              (subst (λ c. n ≤ c) (sym (count_of-here f.kind n s.counters)) (omega arith), tt));
      }

  strip_spans-Grown :
      (m : Mapping) (fs : List Finding) (s : Stripping)
      → Grown m s
      → Grown m (strip_spans patterns fs s)
  unfolding strip_spans
  strip_spans-Grown m [] s g = g
  strip_spans-Grown m (f ∷ fs) s g = strip_spans-Grown m fs _ (strip_span-Grown m f s _ refl g)

  -- Stripping a text under a map that is one to one, no placeholder and no value in it twice, gives a map
  -- that is one to one again and that goes on from the given one: every value keeps its placeholder.
  pub strip-OneToOne :
      (text : Text) (m : Mapping)
      → OneToOne m
      → ((new : Mapping) × ((strip patterns text m).mapping ≡ m ++ new))
        × OneToOne (strip patterns text m).mapping
  unfolding strip
  strip-OneToOne [] m o = (([], sym (append-nil m)), o)
  strip-OneToOne (c ∷ text) m o =
      let g =
        strip_spans-Grown m (last_first [] (find_all patterns patterns.kinds (c ∷ text) [])) _
          (record {
            new = [];
            grown = sym (append-nil m);
            single = o;
            counted = counters_from-all m [];
          }) in
      ((g.new, g.grown), g.single)
