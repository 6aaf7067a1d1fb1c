-- ===== src/Workflow/Phases/Order.antt =====
-- The order of a run's outcomes: block after block, up to the first that halts.
use harnessie.Prelude.{
  ◌≡◌, ◌⊎◌, refl, sym, ap, ◌∙◌, String, List, [], ◌∷◌, ◌++◌, Bool, true, false, any, map, mem,
  str_eq, All, Bool-cases, inl, inr, Result, ok, raise,
}
use mathlib.Core.List.{append_assoc, append-nil}
use harnessie.Cascade.Config.{CascadeConfig}
use harnessie.WriteSafety.{WriteDeclarationError, WriteConflict}
use harnessie.Workflow.Phases.{
  skipped_resume, is_halt, PhaseOutcome, Phase, Journal, Surroundings, Progress, run_declared_group,
  run_parallel_group, settle_outcome, settle_all, members, all_refused, member_task,
}
use harnessie.Workflow.Phases.Names.{run_parallel_phase-Named}

abbrev pub names : List Phase → List String
names = map (λ ph. ph.name)

abbrev pub phases_of : List PhaseOutcome → List String
phases_of = map (λ o. o.phase)

abbrev pub any_halt : List PhaseOutcome → Bool
any_halt = any (λ o. is_halt o.status)

-- The phases behind a group do not go on with its label.
abbrev pub Ends : String → List Phase → Type 0
Ends label [] = Unit
Ends label (ph ∷ phs) = str_eq ph.parallel label ≡ false

-- A block of the workflow, with what is behind it and its outcomes, one for each phase: a phase alone, which
-- names no parallel group or was verified in an earlier run; or a parallel group, a phase with a label and
-- all phases of that label that follow it directly.
pub data IsBlock : List Phase → List Phase → List PhaseOutcome → Type 0 where
  alone :
      (ph : Phase) (later : List Phase) (o : PhaseOutcome)
      → (str_eq ph.parallel "" ≡ true) ⊎ (o.status ≡ skipped_resume)
      → o.phase ≡ ph.name
      → IsBlock (ph ∷ []) later (o ∷ [])
  together :
      (ph : Phase) (others later : List Phase) (os : List PhaseOutcome)
      → str_eq ph.parallel "" ≡ false
      → All (λ q. str_eq q.parallel ph.parallel ≡ true) others
      → Ends ph.parallel later
      → phases_of os ≡ names (ph ∷ others)
      → IsBlock (ph ∷ others) later os

pub IsBlock-named :
    (group later : List Phase) (os : List PhaseOutcome)
    → IsBlock group later os
    → phases_of os ≡ names group
IsBlock-named group later os (alone ph rest o why named) = ap (λ n. n ∷ []) named
IsBlock-named group later os (together ph others rest all labelled same ends named) = named

-- What a run over phases comes to, without how: block after block in the workflow's order. The run ends
-- behind the first block with an outcome that halts, or with the phases.
pub data Ran : List Phase → List PhaseOutcome → Type 0 where
  finished : Ran [] []
  block :
      (group later : List Phase) (os more : List PhaseOutcome)
      → IsBlock group later os
      → any_halt os ≡ false
      → Ran later more
      → Ran (group ++ later) (os ++ more)
  stopped :
      (group later : List Phase) (os : List PhaseOutcome)
      → IsBlock group later os
      → any_halt os ≡ true
      → Ran (group ++ later) os

-- No two phases have one name.
abbrev pub NoRepeat : List Phase → Type 0
NoRepeat [] = Unit
NoRepeat (ph ∷ phs) = All (λ q. str_eq ph.name q.name ≡ false) phs × NoRepeat phs

abbrev pub Handled : List String → List Phase → Type 0
Handled handled = All (λ ph. mem ph.name handled ≡ true)

abbrev pub Unhandled : List String → List Phase → Type 0
Unhandled handled = All (λ ph. mem ph.name handled ≡ false)

-- The pool keeps the order of its tasks, and returns what each came to in some world.
abbrev pub Each : {W : Type 0} → List (W → PhaseOutcome × W) → List PhaseOutcome → Type 0
Each [] [] = Unit
Each {W = W} (t ∷ ts) (o ∷ os) = ((w : W) × ((t w).0 ≡ o)) × Each ts os
Each _ _ = ⊥

module _ {W J : Type 0} (config : CascadeConfig) (around : Surroundings W) (journal : Journal J)
    (pool_each : (ts : List (W → PhaseOutcome × W)) (w : W) → Each ts (around.pool ts w).0) where
  Each-names :
      (reports : List (String × String)) (j : J) (group : List Phase) (os : List PhaseOutcome)
      → Each (map (λ ph. member_task config around journal reports j ph) group) os
      → phases_of os ≡ names group
  Each-names reports j [] [] h = refl
  Each-names reports j [] (o ∷ os) h = absurd h
  Each-names reports j (ph ∷ group) [] h = absurd h
  Each-names reports j (ph ∷ group) (o ∷ os) ((w, e), h) =
      ap (λ n. n ∷ phases_of os)
        (sym (ap (λ r. r.phase) e)
          ∙ (run_parallel_phase-Named config around (journal.prior j ph.name) reports ph w).named)
      ∙ ap (λ ns. ph.name ∷ ns) (Each-names reports j group os h)

  all_refused-names :
      (report : String) (group : List Phase)
      → phases_of (all_refused config around report group) ≡ names group
  all_refused-names report [] = refl
  all_refused-names report (ph ∷ group) = ap (λ ns. ph.name ∷ ns) (all_refused-names report group)

  run_declared_group-names :
      (r : Result WriteDeclarationError (List WriteConflict)) (group : List Phase)
      (reports : List (String × String)) (j : J) (w : W)
      → phases_of (run_declared_group config around journal r group reports j w).0 ≡ names group
  unfolding run_declared_group
  run_declared_group-names (raise e) group reports j w = all_refused-names _ group
  run_declared_group-names (ok (c ∷ cs)) group reports j w = all_refused-names _ group
  run_declared_group-names (ok []) group reports j w = Each-names reports j group _ (pool_each _ _)

  pub run_parallel_group-names :
      (group : List Phase) (reports : List (String × String)) (j : J) (w : W)
      → phases_of (run_parallel_group config around journal group reports j w).0 ≡ names group
  unfolding run_parallel_group
  run_parallel_group-names group reports j w = run_declared_group-names _ group reports j w

  abbrev State : Type 0
  State = Progress config around journal

  pub settle_all-outcomes :
      (os : List PhaseOutcome) (s : State)
      → (settle_all config around journal os s).outcomes ≡ s.outcomes ++ os
  unfolding settle_all settle_outcome
  settle_all-outcomes [] s = sym (append-nil s.outcomes)
  settle_all-outcomes (o ∷ os) s =
      settle_all-outcomes os (settle_outcome config around journal o s)
      ∙ append_assoc s.outcomes (o ∷ []) os

  -- The phases after `ph` that stand in its group, and those that do not.
  pub record Cut (label : String) (phs : List Phase) : Type 0 where
    pub rest : List Phase
    pub whole : phs ≡ members config around journal label phs ++ rest
    pub same : All (λ q. str_eq q.parallel label ≡ true) (members config around journal label phs)
    pub ends : Ends label rest

  pub cut : (label : String) (phs : List Phase) → Cut label phs
  unfolding members
  cut label [] = record { rest = []; whole = refl; same = tt; ends = tt }
  cut label (ph ∷ phs) = elim (Bool-cases (str_eq ph.parallel label)) [
    | inl e ↦
        let c = cut label phs in
        record {
          rest = c.rest;
          whole = rw e (ap (λ l. ph ∷ l) c.whole);
          same = rw e (e, c.same);
          ends = c.ends;
        }
    | inr e ↦ record { rest = ph ∷ phs; whole = rw e refl; same = rw e tt; ends = e }
  ]
