-- ===== src/Events/Chain.antt =====
-- Logs that `emit` of harness/events.py alone has written, verified and reopened.
use harnessie.Prelude.{
  ℕ, suc, ◌+◌, ◌≡◌, refl, ap, sym, ◌∙◌, String, none, some, List, [], ◌∷◌, ◌++◌, true, false, not,
  keep, length, arith, All, All-append, length-append, is_blank, is_one_line, splitlines,
  splitlines-line, splitlines-nil, mem, eq_iff, inl, inr, Bool-cases, subst,
}
use native.Mathlib.Nat.{add-zero}
use mathlib.Core.List.{append_assoc, append-nil}
use harnessie.Prelude.Values.{keys, get-overlay}
use harnessie.Events.{
  Wire, Emission, EventLog, genesis, event_of, chain_fields, lines_of, prev_after, reopen, emit,
  emit_all, is_link, breaks_from, verify_chain, verify_chain_lines,
}

-- The file that holds the given lines.
abbrev pub file_of : List (List ℕ) → List ℕ
file_of [] = []
file_of (l ∷ ls) = l ++ (10 ∷ file_of ls)

pub file_of-append :
    (ls : List (List ℕ)) (l : List ℕ) → file_of ls ++ (l ++ 10 ∷ []) ≡ file_of (ls ++ l ∷ [])
file_of-append [] l = refl
file_of-append (k ∷ ls) l =
    append_assoc k (10 ∷ file_of ls) (l ++ 10 ∷ []) ∙ ap (λ r. k ++ (10 ∷ r)) (file_of-append ls l)

-- A line that survives being written and read: it has no boundary inside, and is not blank.
pub record IsLine (l : List ℕ) : Type 0 where
  pub one : is_one_line l ≡ true
  pub shown : is_blank l ≡ false

splitlines-file_of : (ls : List (List ℕ)) → All IsLine ls → splitlines (file_of ls) ≡ ls
splitlines-file_of [] h = splitlines-nil
splitlines-file_of (l ∷ ls) h =
    splitlines-line l (file_of ls) h.0.one ∙ ap (λ r. l ∷ r) (splitlines-file_of ls h.1)

pub keep_shown : (ls : List (List ℕ)) → All IsLine ls → keep (λ l. not (is_blank l)) ls ≡ ls
keep_shown [] h = refl
keep_shown (l ∷ ls) h = rw (h.0.shown, keep_shown ls h.1)

pub lines_of-file_of : (ls : List (List ℕ)) → All IsLine ls → lines_of (file_of ls) ≡ ls
lines_of-file_of ls h = rw (splitlines-file_of ls h) (keep_shown ls h)

regroup : (s n : ℕ) → s + suc n ≡ s + 1 + n
regroup s n = omega arith

module _ (wire : Wire) where
  open wire use {dumps, loads, line_hash}

  -- What is asked of one event: its line is read back as the event, and stays one line; the caller
  -- passes no field that `emit` sets for the chain.
  pub record IsReadable (log : EventLog) (e : Emission) : Type 0 where
    pub line : IsLine (dumps (event_of log e))
    pub back : loads (dumps (event_of log e)) ≡ some (event_of log e)
    pub free_prev : mem "prev" (keys e.payload) ≡ false
    pub free_seq : mem "seq" (keys e.payload) ≡ false

  abbrev pub AllReadable : EventLog → List Emission → Type 0
  AllReadable log [] = Unit
  AllReadable log (e ∷ es) = IsReadable log e × AllReadable (emit wire log e) es

  -- The log that honest appending of these lines leaves.
  pub record IsHonest (ls : List (List ℕ)) (log : EventLog) : Type 0 where
    pub written : log.file ≡ file_of ls
    pub lines : All IsLine ls
    pub counted : log.seq ≡ length ls
    pub chained : log.prev ≡ prev_after wire genesis ls
    pub unbroken : breaks_from wire genesis 0 1 ls ≡ []

  prev_after-append :
      (p : String) (ls : List (List ℕ)) (l : List ℕ)
      → prev_after wire p (ls ++ l ∷ []) ≡ line_hash l
  prev_after-append p [] l = refl
  prev_after-append p (k ∷ ls) l = prev_after-append (line_hash k) ls l

  breaks_from-append :
      (p : String) (s n : ℕ) (ls : List (List ℕ)) (l : List ℕ)
      → breaks_from wire p s n ls ≡ []
      → is_link (prev_after wire p ls) (s + length ls) (loads l) ≡ true
      → breaks_from wire p s n (ls ++ l ∷ []) ≡ []
  unfolding breaks_from
  breaks_from-append p s n [] l h k = ground (arith, ap (λ t. is_link p t (loads l)) (add-zero s))
  breaks_from-append p s n (x ∷ ls) l h k = elim (Bool-cases (is_link p s (loads x))) [
    | inl e ↦ rw e (
        breaks_from-append (line_hash x) (s + 1) (n + 1) ls l (rw e at h) (
          subst (λ t. is_link (prev_after wire (line_hash x) ls) t (loads l) ≡ true)
            (regroup s (length ls)) k))
    | inr e ↦ cc (rw e at h)
  ]

  is_link-event_of :
      (log : EventLog) (e : Emission)
      → IsReadable log e
      → is_link log.prev log.seq (loads (dumps (event_of log e))) ≡ true
  unfolding is_link event_of
  is_link-event_of log e r =
      rw
        (
          r.back,
          get-overlay "prev" (chain_fields log e) e.payload r.free_prev,
          get-overlay "seq" (chain_fields log e) e.payload r.free_seq,
        )
        (ground (arith, eq_iff log.prev log.prev))

  emit-IsHonest :
      (ls : List (List ℕ)) (log : EventLog) (e : Emission)
      → IsHonest ls log
      → IsReadable log e
      → IsHonest (ls ++ dumps (event_of log e) ∷ []) (emit wire log e)
  unfolding emit
  emit-IsHonest ls log e h r = record {
    written = ap (λ f. f ++ (dumps (event_of log e) ++ 10 ∷ [])) h.written ∙ file_of-append ls _;
    lines = All-append IsLine ls _ h.lines (r.line, tt);
    counted = omega (arith, h.counted, length-append ls (dumps (event_of log e) ∷ []));
    chained = sym (prev_after-append genesis ls _);
    unbroken = breaks_from-append genesis 0 1 ls _ h.unbroken (
        subst (λ q. is_link q (0 + length ls) (loads (dumps (event_of log e))) ≡ true) h.chained
          (subst (λ n. is_link log.prev n (loads (dumps (event_of log e))) ≡ true)
            (omega (arith, h.counted)) (is_link-event_of log e r)));
  }

  -- The lines that a series of calls appends.
  abbrev appended : EventLog → List Emission → List (List ℕ)
  appended log [] = []
  appended log (e ∷ es) = dumps (event_of log e) ∷ appended (emit wire log e) es

  emit_all-IsHonest :
      (ls : List (List ℕ)) (log : EventLog) (es : List Emission)
      → IsHonest ls log
      → AllReadable log es
      → IsHonest (ls ++ appended log es) (emit_all wire log es)
  unfolding emit_all
  emit_all-IsHonest ls log [] h r = rw append-nil h
  emit_all-IsHonest ls log (e ∷ es) h r =
      subst (λ t. IsHonest t (emit_all wire (emit wire log e) es))
        (append_assoc ls (dumps (event_of log e) ∷ []) _)
        (emit_all-IsHonest (ls ++ dumps (event_of log e) ∷ []) (emit wire log e) es
          (emit-IsHonest ls log e h r.0) r.1)

  pub new_log-IsHonest : IsHonest [] (reopen wire none)
  unfolding reopen breaks_from
  new_log-IsHonest = record {
    written = refl;
    lines = tt;
    counted = refl;
    chained = refl;
    unbroken = refl;
  }

  run_IsHonest :
      (es : List Emission)
      → AllReadable (reopen wire none) es
      → IsHonest (appended (reopen wire none) es) (emit_all wire (reopen wire none) es)
  run_IsHonest es r = emit_all-IsHonest [] (reopen wire none) es new_log-IsHonest r

  length-appended : (log : EventLog) (es : List Emission) → length (appended log es) ≡ length es
  length-appended log [] = refl
  length-appended log (e ∷ es) = ap suc (length-appended (emit wire log e) es)

  -- A log that was only ever appended to by `emit`, with readable events, verifies: the check of the
  -- file reports no break and as many lines as there were events.
  pub verify_chain-emit_all :
      (es : List Emission)
      → AllReadable (reopen wire none) es
      → verify_chain wire (some (emit_all wire (reopen wire none) es).file)
        ≡ record { is_ok = true; length_of = length es; breaks = [] }
  unfolding verify_chain verify_chain_lines
  verify_chain-emit_all es r =
      let h = run_IsHonest es r in
      rw (h.written, lines_of-file_of _ h.lines, h.unbroken, length-appended) refl

  reopen_honest :
      (ls : List (List ℕ)) (log : EventLog) → IsHonest ls log → reopen wire (some log.file) ≡ log
  unfolding reopen
  reopen_honest ls log h =
      let read : lines_of log.file ≡ ls = ap lines_of h.written ∙ lines_of-file_of ls h.lines in
      let counted : length (lines_of log.file) ≡ log.seq = ap length read ∙ sym h.counted in
      let chained : prev_after wire genesis (lines_of log.file) ≡ log.prev =
        ap (prev_after wire genesis) read ∙ sym h.chained in
      λ i. record { file = log.file; seq = counted i; prev = chained i }

  -- Opening the file of such a log again gives the very state in which the log was left, so a resumed
  -- run continues the same chain.
  pub reopen-emit_all :
      (es : List Emission)
      → AllReadable (reopen wire none) es
      → reopen wire (some (emit_all wire (reopen wire none) es).file)
        ≡ emit_all wire (reopen wire none) es
  reopen-emit_all es r = reopen_honest _ _ (run_IsHonest es r)
