-- ===== src/Adversarial/Earned.antt =====
-- What a contested phase of harness/runner.py that passes has shown.
use harnessie.Prelude.{
  ℕ, zero, suc, ◌≡◌, ◌≢◌, ◌⊎◌, refl, subst, String, Option, none, some, List, [], ◌∷◌, ◌++◌, Bool,
  true, false, ◌&&◌, all, str_eq, All, inl, inr, arith, eq_iff,
}
use harnessie.Loop.{LoopResult}
use harnessie.Workflow.Phases.{phase_passed}
use harnessie.Adversarial.Stances.{PositionRecord, Objection, converged}
use harnessie.Adversarial.Lint.{Text, LintReport}
use harnessie.Adversarial.Arbitrated.{Arbitrated, lint_record-Arbitrated}
use harnessie.Adversarial.Contest.{
  ContestedPhase, Contest, Seat, Gathered, gathered, reserved_class, position_round, answer_of,
  objection_round, go_round, objection_rounds, positions_of, decide_contest, assemble_contest,
  after_positions, resume_contest, contest_with, run_adversarial_phase,
}
use harnessie.Adversarial.Positions.{
  Recommends, StandsDown, Sits, position_round-Sits, all-Recommends,
}

nil_of_append {ℓ} : {A : Type ℓ} (xs ys : List A) → xs ++ ys ≡ [] → (xs ≡ []) × (ys ≡ [])
nil_of_append [] ys h = (refl, h)
nil_of_append (x ∷ xs) ys h = cc

and_left : (a b : Bool) → (a && b) ≡ true → a ≡ true
and_left a b h = ground arith

and_false : (a : Bool) → (a && false) ≢ true
and_false a h = ground arith

and_parts : (a b : Bool) → (a && b) ≡ true → (a ≡ true) × (b ≡ true)
and_parts true b h = (refl, h)
and_parts false b h = absurd (cc)

module _ {W : Type 0} (contest : Contest W) (task : String) where
  answer_of-nil :
      (label : String) (r : LoopResult) (o : Option (List String))
      → answer_of contest task label r o ≡ []
      → o ≡ some []
  unfolding answer_of
  answer_of-nil label r none h = absurd (cc h)
  answer_of-nil label r (some []) h = refl
  answer_of-nil label r (some (t ∷ ts)) h = absurd (cc h)

  objection_round-nil :
      (seats asked : List Seat) (w : W)
      → (objection_round contest task seats asked [] w).0 ≡ []
      → All (StandsDown contest task seats) asked
  unfolding objection_round
  objection_round-nil seats [] w h = tt
  objection_round-nil seats (s ∷ asked) w h =
      let (here, later) = nil_of_append _ _ h in
      ((w, answer_of-nil s.position.label _ _ here), objection_round-nil seats asked _ later)

  go_round-ne-nil :
      (left : ℕ) (seats : List Seat) (o : Objection) (os new : List Objection) (w : W)
      → ((q : Objection) (qs : List Objection) (v : W)
          → (objection_rounds contest task left seats (q ∷ qs) v).0 ≢ [])
      → (go_round contest task new
          (o ∷ os)
          w
          (λ qs v. objection_rounds contest task left seats qs v)).0
        ≢ []
  go_round-ne-nil left seats o os [] w later h = cc h
  go_round-ne-nil left seats o os (q ∷ new) w later h = later o (os ++ (q ∷ new)) _ h

  -- Objections that stand are never dropped.
  objection_rounds-ne-nil :
      (left : ℕ) (seats : List Seat) (o : Objection) (os : List Objection) (w : W)
      → (objection_rounds contest task left seats (o ∷ os) w).0 ≢ []
  unfolding objection_rounds
  objection_rounds-ne-nil zero seats o os w h = cc h
  objection_rounds-ne-nil (suc left) seats o os w h =
      go_round-ne-nil left seats o os (objection_round contest task seats seats (o ∷ os) w).0 _
        (λ q qs v. objection_rounds-ne-nil left seats q qs v) h

  go_round-quiet :
      (left : ℕ) (seats : List Seat) (new : List Objection) (w : W)
      → (go_round contest task new [] w (λ qs v. objection_rounds contest task left seats qs v)).0
        ≡ []
      → new ≡ []
  go_round-quiet left seats [] w h = refl
  go_round-quiet left seats (q ∷ new) w h = absurd (objection_rounds-ne-nil left seats q new _ h)

  objection_rounds-quiet :
      (left : ℕ) (seats : List Seat) (w : W)
      → (objection_rounds contest task (suc left) seats [] w).0 ≡ []
      → All (StandsDown contest task seats) seats
  unfolding objection_rounds
  objection_rounds-quiet left seats w h =
      objection_round-nil seats seats w (go_round-quiet left seats _ _ h)

  converged-parts :
      (seats : List Seat) (objections : List Objection)
      → converged (positions_of contest task seats) objections ≡ true
      → (seats ≢ [])
        × (all
              (λ (q : PositionRecord). str_eq q.stance "recommend")
              (positions_of contest task seats)
            ≡ true)
        × (objections ≡ [])
  unfolding converged
  converged-parts [] objections h = absurd (cc h)
  converged-parts (s ∷ seats) [] h = ((λ e. cc e), and_left _ _ h, refl)
  converged-parts (s ∷ seats) (o ∷ os) h = absurd (and_false _ h)

  -- No operator, but agents that were each asked alone, all recommend, and all stand down.
  pub record Agreed (ph : ContestedPhase) (w : W) : Type 0 where
    pub by_convergence : ph.arbitration ≡ "convergence"
    pub seats : List Seat
    pub behind : W
    pub asked : position_round contest task ph.positions [] w ≡ gathered seats behind
    pub someone : seats ≢ []
    pub recommend : All (Recommends contest task) seats
    pub stand_down : All (StandsDown contest task seats) seats

  decide_contest-passed :
      (b : Bool) (ps : List PositionRecord) (lint : LintReport) (w : W)
      → (decide_contest contest task b ps lint w).0.0 ≡ phase_passed
      → b ≡ true
  unfolding decide_contest
  decide_contest-passed true ps lint w h = refl
  decide_contest-passed false ps lint w h = absurd (cc h)

  -- What an assembled record that passes has converged from.
  assemble_contest-passed :
      (ph : ContestedPhase) (seats : List Seat) (objections : List Objection) (w : W)
      → (assemble_contest contest task ph seats objections w).0.0 ≡ phase_passed
      → (ph.arbitration ≡ "convergence")
        × (converged (positions_of contest task seats) objections ≡ true)
  unfolding assemble_contest
  assemble_contest-passed ph seats objections w h =
      let b = decide_contest-passed _ _ _ _ h in
      let (others, faultless) = and_parts _ _ b in
      let (readable, agreed) = and_parts _ _ others in
      ((eq_iff ph.arbitration "convergence").0 (and_parts _ _ readable).0, agreed)

  after_positions-Agreed :
      (ph : ContestedPhase) (w : W) (g : Gathered W)
      → position_round contest task ph.positions [] w ≡ g
      → (after_positions contest task ph g).0.0 ≡ phase_passed
      → Agreed ph w
  unfolding after_positions
  after_positions-Agreed ph w (reserved_class c v) e h = absurd (cc h)
  after_positions-Agreed ph w (gathered seats v) e h =
      let (mode, agreed) = assemble_contest-passed ph seats _ _ h in
      let (someone, recommend, quiet) = converged-parts seats _ agreed in
      record {
        by_convergence = mode;
        seats = seats;
        behind = v;
        asked = e;
        someone = someone;
        recommend =
            all-Recommends contest task seats
              (subst (Sits contest task) e
                (position_round-Sits contest task ph.positions [] w)).sits
              recommend;
        stand_down = objection_rounds-quiet ph.further_rounds seats v quiet;
      }

  resume_contest-passed :
      (b : Bool) (lint : LintReport) (w : W)
      → (resume_contest contest task b lint w).0.0 ≡ phase_passed
      → b ≡ true
  unfolding resume_contest
  resume_contest-passed true lint w h = refl
  resume_contest-passed false lint w h = absurd (cc h)

  contest_with-passed :
      (ph : ContestedPhase) (o : Option Text) (w : W)
      → contest.read_record w ≡ o
      → (contest_with contest task ph o w).0.0 ≡ phase_passed
      → ((text : Text) × (contest.read_record w ≡ some text) × Arbitrated contest.yaml text)
        ⊎ ((contest.read_record w ≡ none) × Agreed ph w)
  unfolding contest_with
  contest_with-passed ph (some text) w e h =
      inl (text, e, lint_record-Arbitrated contest.yaml text (resume_contest-passed _ _ w h))
  contest_with-passed ph none w e h = inr (e, after_positions-Agreed ph w _ refl h)

  -- A contested phase passes only in one of two ways. Either its record was there, and is one that an
  -- operator has arbitrated: without a structural error, with status `arbitrated`, a decided date, and a
  -- complete Arbitration section. Or there was no record, the phase asks for convergence, and the agents
  -- that were asked, at least one, each finished with a stance that recommends, and each finished its
  -- objection round with an empty list of objections.
  pub run_adversarial_phase-Agreed :
      (ph : ContestedPhase) (w : W)
      → (run_adversarial_phase contest task ph w).0.0 ≡ phase_passed
      → ((text : Text) × (contest.read_record w ≡ some text) × Arbitrated contest.yaml text)
        ⊎ ((contest.read_record w ≡ none) × Agreed ph w)
  unfolding run_adversarial_phase
  run_adversarial_phase-Agreed ph w h = contest_with-passed ph _ w refl h
