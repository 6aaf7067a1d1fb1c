-- ===== src/Events/Separators.antt =====
-- A line separator inside an event. `json.dumps` with `ensure_ascii=False` writes the characters
-- U+0085, U+2028 and U+2029 as they are, and `str.splitlines` breaks lines there.
use harnessie.Prelude.{
  ℕ, ◌+◌, ◌≡◌, refl, ap, ◌∙◌, String, none, some, List, [], ◌∷◌, ◌++◌, true, false, not, ◌==◌, keep,
  All, is_blank, is_boundary, is_one_line, splitlines-line, splitlines-boundary, split_from, inl,
  inr, Bool-cases, subst,
}
use mathlib.Core.List.{append_assoc}
use harnessie.Events.{
  Wire, Emission, EventLog, genesis, event_of, lines_of, emit, is_link, verify_chain,
  verify_chain_lines,
}
use harnessie.Events.Chain.{IsLine, IsHonest, file_of}
use harnessie.Events.Tamper.{Linked, breaks_from-Linked, nothing_breaks}

-- The lines of an honest file, with more text behind it.
lines_of-more :
    (ls : List (List ℕ)) (more : List ℕ)
    → All IsLine ls
    → lines_of (file_of ls ++ more) ≡ ls ++ lines_of more
lines_of-more [] more h = refl
lines_of-more (l ∷ ls) more h =
    ap lines_of (append_assoc l (10 ∷ file_of ls) more)
    ∙ ap (keep (λ k. not (is_blank k))) (splitlines-line l (file_of ls ++ more) h.0.one)
    ∙ rw h.0.shown (ap (λ r. l ∷ r) (lines_of-more ls more h.1))

-- How the file is read back when the line that was written last holds a separator.
lines_after :
    (ls : List (List ℕ)) (file line a b : List ℕ) (c : ℕ)
    → file ≡ file_of ls
    → All IsLine ls
    → line ≡ a ++ (c ∷ b)
    → is_boundary c ≡ true
    → is_one_line a ≡ true
    → is_blank a ≡ false
    → lines_of (file ++ (line ++ 10 ∷ []))
      ≡ ls ++ (a ∷ keep (λ k. not (is_blank k)) (split_from [] (c == 13) (b ++ 10 ∷ [])))
lines_after ls file line a b c written lines dumped boundary one shown =
    ap (λ f. lines_of (f ++ (line ++ 10 ∷ []))) written
    ∙ ap (λ l. lines_of (file_of ls ++ (l ++ 10 ∷ []))) dumped
    ∙ lines_of-more ls ((a ++ (c ∷ b)) ++ 10 ∷ []) lines
    ∙ ap (λ t. ls ++ lines_of t) (append_assoc a (c ∷ b) (10 ∷ []))
    ∙ ap (λ t. ls ++ keep (λ k. not (is_blank k)) t)
        (splitlines-boundary a (b ++ 10 ∷ []) c boundary one)
    ∙ rw shown refl

module _ (wire : Wire) where
  open wire use {dumps, loads}

  Linked-middle :
      (p : String) (s : ℕ) (ls rest : List (List ℕ)) (l : List ℕ)
      → loads l ≡ none
      → ¬ (Linked wire p s (ls ++ (l ∷ rest)))
  unfolding is_link
  Linked-middle p s [] rest l bad h = cc (rw bad at h.0)
  Linked-middle p s (x ∷ ls) rest l bad h =
      Linked-middle (wire.line_hash x) (s + 1) ls rest l bad h.1

  -- If the line of an event holds a line separator, and what stands before it is no JSON text by
  -- itself, then the file no longer verifies, though the log was honest and only `emit` wrote to it.
  pub separator_breaks_chain :
      (ls : List (List ℕ)) (log : EventLog) (e : Emission) (a b : List ℕ) (c : ℕ)
      → IsHonest wire ls log
      → dumps (event_of log e) ≡ a ++ (c ∷ b)
      → is_boundary c ≡ true
      → is_one_line a ≡ true
      → is_blank a ≡ false
      → loads a ≡ none
      → (verify_chain wire (some (emit wire log e).file)).is_ok ≡ false
  unfolding verify_chain emit
  separator_breaks_chain ls log e a b c h dumped boundary one shown bad =
      elim (Bool-cases
        (verify_chain_lines wire
          (lines_of (log.file ++ (dumps (event_of log e) ++ 10 ∷ [])))).is_ok) [
            | inl ok ↦
                let read =
                  lines_after ls log.file (dumps (event_of log e)) a b c h.written h.lines dumped
                    boundary one shown in
                let chain = breaks_from-Linked wire genesis 0 1 _ (nothing_breaks wire _ ok) in
                absurd
                  (Linked-middle genesis 0 ls _ a bad (subst (Linked wire genesis 0) read chain))
            | inr bad_chain ↦ bad_chain
          ]
