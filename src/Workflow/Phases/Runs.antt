-- ===== src/Workflow/Phases/Runs.antt =====
-- Runs of the phase loop of harness/runner.py, and runs by blocks.
use harnessie.Prelude.{
  ◌≡◌, inl, inr, refl, sym, ap, ◌∙◌, subst, String, List, [], ◌∷◌, ◌++◌, Bool, true, false, mem,
  str_eq, All, arith, str_eq_refl, ◌||◌,
}
use mathlib.Core.List.{map-append, append_assoc, append-nil}
use harnessie.Cascade.Config.{CascadeConfig}
use harnessie.Workflow.Phases.{
  skipped_resume, is_halt, PhaseOutcome, Phase, Journal, Surroundings, outcome_of, Progress, Next,
  go_on, halted, run_phase, run_parallel_group, settle_outcome, settle_all, members, run_group,
  run_single, start_phase, resume_phase, visit_phase, run_phases, then_next, go_unless, render_task,
  phase_start, phase_done,
}
use harnessie.Workflow.Phases.Names.{run_phase-Named}
use harnessie.Workflow.Phases.Order.{
  names, phases_of, any_halt, Ran, IsBlock, alone, together, IsBlock-named, finished, block,
  stopped, NoRepeat, Handled, Unhandled, Each, cut, run_parallel_group-names, settle_all-outcomes,
}

or_true : (b : Bool) → (b || true) ≡ true
or_true b = ground arith

or_false : (b : Bool) → (b || false) ≡ b
or_false b = ground arith

weaken-Handled :
    (n : String) (hs : List String) (phs : List Phase) → Handled hs phs → Handled (n ∷ hs) phs
weaken-Handled n hs [] h = tt
weaken-Handled n hs (ph ∷ phs) (k, h) = (rw k (or_true _), weaken-Handled n hs phs h)

names-Handled : (hs : List String) (g : List Phase) → Handled (names g ++ hs) g
names-Handled hs [] = tt
names-Handled hs (ph ∷ g) =
    (rw (str_eq_refl ph.name) refl, weaken-Handled ph.name (names g ++ hs) g (names-Handled hs g))

extend-Unhandled :
    (n : String) (hs : List String) (phs : List Phase)
    → All (λ q. str_eq n q.name ≡ false) phs
    → Unhandled hs phs
    → Unhandled (n ∷ hs) phs
extend-Unhandled n hs [] a h = tt
extend-Unhandled n hs (ph ∷ phs) (e, a) (k, h) = (rw (e, k) refl, extend-Unhandled n hs phs a h)

All-suffix : (P : Phase → Type 0) (g rest : List Phase) → All P (g ++ rest) → All P rest
All-suffix P [] rest h = h
All-suffix P (q ∷ g) rest (_, h) = All-suffix P g rest h

NoRepeat-suffix : (g rest : List Phase) → NoRepeat (g ++ rest) → NoRepeat rest
NoRepeat-suffix [] rest h = h
NoRepeat-suffix (q ∷ g) rest (_, h) = NoRepeat-suffix g rest h

names-Unhandled :
    (hs : List String) (g rest : List Phase)
    → NoRepeat (g ++ rest)
    → Unhandled hs (g ++ rest)
    → Unhandled (names g ++ hs) rest
names-Unhandled hs [] rest n h = h
names-Unhandled hs (ph ∷ g) rest (a, n) (_, h) =
    extend-Unhandled ph.name (names g ++ hs) rest (All-suffix _ g rest a)
      (names-Unhandled hs g rest n h)

module _ {W J : Type 0} (config : CascadeConfig) (around : Surroundings W) (journal : Journal J)
    (pool_each : (ts : List (W → PhaseOutcome × W)) (w : W) → Each ts (around.pool ts w).0) where
  abbrev State : Type 0
  State = Progress config around journal

  abbrev Move : Type 0
  Move = Next config around journal

  -- The outcomes of one block, of the phases from `ph` on.
  record Block (ph : Phase) (phs : List Phase) (s t : State) (halts : Bool) : Type 0 where
    group : List Phase
    rest : List Phase
    os : List PhaseOutcome
    split : ph ∷ phs ≡ group ++ rest
    grown : t.outcomes ≡ s.outcomes ++ os
    is_block : IsBlock group rest os
    halting : any_halt os ≡ halts

  -- What the next visits find handled: the rest of the block.
  record Later (phs rest : List Phase) (handled : List String) : Type 0 where
    here : List Phase
    tail : phs ≡ here ++ rest
    behind : Handled handled here
    ahead : Unhandled handled rest

  abbrev Visited : Phase → List Phase → State → Move → Type 0
  Visited ph phs s (go_on handled t) = (b : Block ph phs s t false) × Later phs b.rest handled
  Visited ph phs s (halted t) = Block ph phs s t true

  record Visits (ph : Phase) (phs : List Phase) (s : State) (n : Move) : Type 0 where
    visited : Visited ph phs s n

  go_unless-Visits :
      (b : Bool) (handled : List String) (ph : Phase) (phs : List Phase) (s t : State)
      → (k : Block ph phs s t b) → Later phs k.rest handled
      → Visits ph phs s (go_unless config around journal b handled t)
  go_unless-Visits true handled ph phs s t k later = record { visited = k }
  go_unless-Visits false handled ph phs s t k later = record { visited = (k, later) }

  run_single-Visits :
      (ph : Phase) (phs : List Phase) (handled : List String) (s : State)
      → Unhandled handled phs
      → str_eq ph.parallel "" ≡ true
      → Visits ph phs s (run_single config around journal ph handled s)
  unfolding run_single settle_outcome
  run_single-Visits ph phs handled s u lone =
      let (task, w) =
        render_task config around ph s.reports (around.emit (phase_start ph.name) s.world) in
      let (o, w') = run_phase config around ph.adversarial ph task w in
      go_unless-Visits (is_halt o.status) handled ph phs s
        (settle_outcome config around journal o
          (record s { world = around.emit (phase_done ph.name o.status) w' }))
        (record {
          group = ph ∷ [];
          rest = phs;
          os = o ∷ [];
          split = refl;
          grown = refl;
          is_block =
              alone ph phs o (inl lone)
                (run_phase-Named config around ph task ph.adversarial w).named;
          halting = or_false _;
        })
        (record { here = []; tail = refl; behind = tt; ahead = u })

  run_group-Visits :
      (ph : Phase) (phs : List Phase) (handled : List String) (s : State)
      → NoRepeat (ph ∷ phs)
      → Unhandled handled (ph ∷ phs)
      → str_eq ph.parallel "" ≡ false
      → Visits ph phs s (
          run_group config around journal
            (ph ∷ members config around journal ph.parallel phs)
            handled
            s)
  unfolding run_group
  run_group-Visits ph phs handled s n u labelled =
      let group = ph ∷ members config around journal ph.parallel phs in
      let c = cut config around journal pool_each ph.parallel phs in
      let whole = ap (λ l. ph ∷ l) c.whole in
      let (os, w) = run_parallel_group config around journal group s.reports s.steps s.world in
      go_unless-Visits (any_halt os) (names group ++ handled) ph phs s
        (settle_all config around journal os (record s { world = w }))
        (record {
          group = group;
          rest = c.rest;
          os = os;
          split = whole;
          grown = settle_all-outcomes config around journal pool_each os (record s { world = w });
          is_block =
              together ph (members config around journal ph.parallel phs) c.rest os labelled c.same
                c.ends
                (run_parallel_group-names config around journal pool_each group s.reports s.steps
                  s.world);
          halting = refl;
        })
        (record {
          here = members config around journal ph.parallel phs;
          tail = c.whole;
          behind = (names-Handled handled group).1;
          ahead =
              names-Unhandled handled group c.rest (subst NoRepeat whole n)
                (subst (Unhandled handled) whole u);
        })

  start_phase-Visits :
      (lone : Bool) (ph : Phase) (phs : List Phase) (handled : List String) (s : State)
      → NoRepeat (ph ∷ phs)
      → Unhandled handled (ph ∷ phs)
      → str_eq ph.parallel "" ≡ lone
      → Visits ph phs s (start_phase config around journal lone ph phs handled s)
  unfolding start_phase
  start_phase-Visits true ph phs handled s n u e = run_single-Visits ph phs handled s u.1 e
  start_phase-Visits false ph phs handled s n u e = run_group-Visits ph phs handled s n u e

  resume_phase-Visits :
      (verified : Bool) (report : String) (ph : Phase) (phs : List Phase) (handled : List String)
      (s : State)
      → NoRepeat (ph ∷ phs)
      → Unhandled handled (ph ∷ phs)
      → Visits ph phs s (resume_phase config around journal verified report ph phs handled s)
  unfolding resume_phase is_halt
  resume_phase-Visits true report ph phs handled s n u = record {
    visited = (
      record {
        group = ph ∷ [];
        rest = phs;
        os = outcome_of ph.name skipped_resume report ∷ [];
        split = refl;
        grown = refl;
        is_block = alone ph phs (outcome_of ph.name skipped_resume report) (inr refl) refl;
        halting = refl;
      },
      record { here = []; tail = refl; behind = tt; ahead = u.1 },
    );
  }
  resume_phase-Visits false report ph phs handled s n u =
      start_phase-Visits _ ph phs handled s n u refl

  visit_phase-Visits :
      (ph : Phase) (phs : List Phase) (handled : List String) (s : State)
      → NoRepeat (ph ∷ phs)
      → Unhandled handled (ph ∷ phs)
      → Visits ph phs s (visit_phase config around journal ph phs handled s)
  unfolding visit_phase
  visit_phase-Visits ph phs handled s n u = rw (u.0) (resume_phase-Visits _ _ ph phs handled s n u)

  abbrev pub Continues : List Phase → State → State → Type 0
  Continues phs s t = (os : List PhaseOutcome) × (t.outcomes ≡ s.outcomes ++ os) × Ran phs os

  Continues-Block :
      (ph : Phase) (phs : List Phase) (s t u : State)
      → (b : Block ph phs s t false) → Continues b.rest t u
      → Continues (ph ∷ phs) s u
  Continues-Block ph phs s t u b (os, grown, ran) = (
    b.os ++ os,
    grown ∙ ap (λ l. l ++ os) b.grown ∙ append_assoc s.outcomes b.os os,
    subst (λ l. Ran l (b.os ++ os)) (sym b.split)
        (block b.group b.rest b.os os b.is_block b.halting ran),
  )

  Continues-stopped :
      (ph : Phase) (phs : List Phase) (s t : State)
      → Block ph phs s t true
      → Continues (ph ∷ phs) s t
  Continues-stopped ph phs s t b = (
    b.os,
    b.grown,
    subst (λ l. Ran l b.os) (sym b.split) (stopped b.group b.rest b.os b.is_block b.halting),
  )

  visit_phase-handled :
      (ph : Phase) (phs : List Phase) (handled : List String) (s : State)
      → mem ph.name handled ≡ true
      → visit_phase config around journal ph phs handled s ≡ go_on handled s
  unfolding visit_phase
  visit_phase-handled ph phs handled s m = rw m refl

  -- What a visit leaves to do, if the visits of the later phases continue.
  after_visit :
      (ph : Phase) (phs : List Phase) (s : State) (n : Move)
      → NoRepeat (ph ∷ phs)
      → Visits ph phs s n
      → ((left here : List Phase) (handled : List String) (t : State)
          → phs ≡ here ++ left
          → Handled handled here
          → Unhandled handled left
          → NoRepeat left
          → Continues left t (run_phases config around journal phs handled t))
      → Continues
          (ph ∷ phs)
          s
          (then_next config around journal (λ h t. run_phases config around journal phs h t) n)
  after_visit ph phs s (halted t) n v later = Continues-stopped ph phs s t v.visited
  after_visit ph phs s (go_on handled t) n v later =
      let (b, l) = v.visited in
      Continues-Block ph phs s t (run_phases config around journal phs handled t) b (
        later b.rest l.here handled t l.tail l.behind l.ahead
          (NoRepeat-suffix l.here b.rest (subst NoRepeat l.tail n.1)))

  head_handled :
      (k ph : Phase) (handled : List String)
      → k ≡ ph
      → mem k.name handled ≡ true
      → mem ph.name handled ≡ true
  head_handled k ph handled e m = subst (λ (q : Phase). mem q.name handled ≡ true) e m

  run_pending :
      (whole here left : List Phase) (handled : List String) (s : State)
      → whole ≡ here ++ left
      → Handled handled here
      → Unhandled handled left
      → NoRepeat left
      → Continues left s (run_phases config around journal whole handled s)
  unfolding run_phases
  run_pending [] [] left handled s e b a n =
      subst (λ l. Continues l s s) e ([], sym (append-nil s.outcomes), finished)
  run_pending [] (k ∷ here) left handled s e b a n = absurd (cc)
  run_pending (ph ∷ phs) (k ∷ here) left handled s e b a n =
      rw (visit_phase-handled ph phs handled s (head_handled k ph handled (cc e) b.0))
        (run_pending phs here left handled s (cc e) b.1 a n)
  run_pending (ph ∷ phs) [] left handled s e b a n =
      let whole = sym e in
      let unhandled = subst (Unhandled handled) whole a in
      let apart = subst NoRepeat whole n in
      subst (λ l. Continues l s (run_phases config around journal (ph ∷ phs) handled s)) e
        (after_visit ph phs s _ apart (visit_phase-Visits ph phs handled s apart unhandled)
          (λ rest here handled' t. run_pending phs here rest handled' t))

  unhandled : (phs : List Phase) → Unhandled [] phs
  unhandled [] = tt
  unhandled (ph ∷ phs) = (refl, unhandled phs)

  pub run_phases-Ran :
      (phs : List Phase) (s : State)
      → NoRepeat phs
      → (os : List PhaseOutcome) × ((run_phases config around journal phs [] s).outcomes
          ≡ s.outcomes ++ os)
        × Ran phs os
  run_phases-Ran phs s n = run_pending phs [] phs [] s refl tt (unhandled phs) n

  any_halt-append : (xs ys : List PhaseOutcome) → any_halt (xs ++ ys) ≡ (any_halt xs || any_halt ys)
  any_halt-append [] ys = refl
  any_halt-append (x ∷ xs) ys = ground (arith, any_halt-append xs ys)

  Ran-complete :
      (phs : List Phase) (os : List PhaseOutcome)
      → Ran phs os
      → any_halt os ≡ false
      → phases_of os ≡ names phs
  Ran-complete phs os finished h = refl
  Ran-complete phs os (block group later bs more is_block quiet ran) h =
      map-append (λ o. o.phase) bs more
      ∙ ap (λ l. l ++ phases_of more) (IsBlock-named group later bs is_block)
      ∙ ap (λ l. names group ++ l)
          (Ran-complete later more ran (rw quiet at (sym (any_halt-append bs more) ∙ h)))
      ∙ sym (map-append (λ ph. ph.name) group later)
  Ran-complete phs os (stopped group later bs is_block halts) h = absurd (cc)

  -- Where no two phases have one name and the pool keeps to its tasks: a run without earlier outcomes in
  -- which nothing halts reaches the end, with exactly one outcome for each phase of the workflow, in the
  -- workflow's order.
  pub run_phases-reaches_end :
      (phs : List Phase) (s : State)
      → NoRepeat phs
      → s.outcomes ≡ []
      → any_halt (run_phases config around journal phs [] s).outcomes ≡ false
      → phases_of (run_phases config around journal phs [] s).outcomes ≡ names phs
  run_phases-reaches_end phs s n none_yet h =
      let (os, grown, ran) = run_phases-Ran phs s n in
      let only = grown ∙ ap (λ l. l ++ os) none_yet in
      ap phases_of only ∙ Ran-complete phs os ran (subst (λ l. any_halt l ≡ false) only h)
