-- ===== src/Adversarial/Positions.antt =====
-- What the positions of a contested phase of harness/runner.py were made of.
use harnessie.Prelude.{
  ℕ, ◌+◌, ◌≡◌, refl, sym, ap, ◌∙◌, subst, String, Option, none, some, List, [], ◌∷◌, Bool, true,
  false, if◌then◌else◌, all, str_eq, lookup, All, arith, eq_iff,
}
use harnessie.Routing.{Route}
use harnessie.Loop.{LoopResult}
use harnessie.Adversarial.Stances.{PositionRecord, Stance}
use harnessie.Adversarial.Contest.{
  Contest, Seat, Gathered, gathered, reserved_class, position_task, objection_task, seen_so_far,
  label_for, stance_said, objections_said, position_of, with_seat, position_round, positions_of,
}

module _ {W : Type 0} (contest : Contest W) (task : String) where
  -- The agent's loop in the position round finished with a stance that recommends.
  abbrev pub Recommends : Seat → Type 0
  Recommends s =
      (w : W) × (st : Stance) × (stance_said contest task
          (contest.run_role s.position.agent (position_task task) s.route w).0
        ≡ some st)
      × (st.stance ≡ "recommend")

  -- Asked about the positions of all, the agent's loop finished with a list of no objections.
  abbrev pub StandsDown : List Seat → Seat → Type 0
  StandsDown seats s =
      (w : W) × (objections_said contest task
          (contest.run_role s.position.agent (objection_task task s.position seats []) s.route w).0
        ≡ some [])

  -- What a seat's position was made of.
  abbrev pub Sat : Seat → Type 0
  Sat s =
      (w : W) × (label : String) × (agent : String) × (s.position
        ≡ position_of contest task label agent s.route
            (contest.run_role agent (position_task task) s.route w).0
            (stance_said contest task (contest.run_role agent (position_task task) s.route w).0))

  agent_of :
      (label agent : String) (route : Route) (r : LoopResult) (st : Option Stance)
      → (position_of contest task label agent route r st).agent ≡ agent
  unfolding position_of
  agent_of label agent route r none = refl
  agent_of label agent route r (some st) = refl

  position_of-recommend :
      (label agent : String) (route : Route) (r : LoopResult) (o : Option Stance)
      → str_eq (position_of contest task label agent route r o).stance "recommend" ≡ true
      → (st : Stance) × (o ≡ some st) × (st.stance ≡ "recommend")
  unfolding position_of
  position_of-recommend label agent route r none h = absurd (cc h)
  position_of-recommend label agent route r (some st) h =
      (st, refl, (eq_iff st.stance "recommend").0 h)

  Sat-Recommends : (s : Seat) → Sat s → str_eq s.position.stance "recommend" ≡ true → Recommends s
  Sat-Recommends s (w, label, agent, e) h =
      let same = ap (λ p. p.agent) e ∙ agent_of label agent s.route _ _ in
      let (st, said, rec) =
        position_of-recommend label agent s.route _ _
          (subst (λ (p : PositionRecord). str_eq p.stance "recommend" ≡ true) e h) in
      (
        w,
        st,
        subst
            (λ a.
              stance_said contest task (contest.run_role a (position_task task) s.route w).0
              ≡ some st)
            (sym same) said,
        rec,
      )

  abbrev pub AllSat : Gathered W → Type 0
  AllSat (gathered seats w) = All Sat seats
  AllSat (reserved_class c w) = Unit

  pub record Sits (g : Gathered W) : Type 0 where
    pub sits : AllSat g

  with_seat-Sits : (s : Seat) (g : Gathered W) → Sat s → Sits g → Sits (with_seat contest task s g)
  with_seat-Sits s (gathered rest w) h k = record { sits = (h, k.sits) }
  with_seat-Sits s (reserved_class c w) h k = record { sits = tt }

  if-Sits :
      (b : Bool) (c : String) (w : W) (g : Gathered W)
      → Sits g
      → Sits (if b then reserved_class c w else g)
  if-Sits true c w g h = record { sits = tt }
  if-Sits false c w g h = h

  pub position_round-Sits :
      (specs : List (String × String)) (seen : List (String × ℕ)) (w : W)
      → Sits (position_round contest task specs seen w)
  unfolding position_round
  position_round-Sits [] seen w = record { sits = tt }
  position_round-Sits ((agent, work_class) ∷ specs) seen w =
      if-Sits (contest.is_reserved work_class) work_class w _ (
        with_seat-Sits _ _
          (w, label_for contest task agent (seen_so_far (lookup agent seen) + 1), agent, refl)
          (position_round-Sits specs _ _))

  pub all-Recommends :
      (seats : List Seat)
      → All Sat seats
      → all (λ (q : PositionRecord). str_eq q.stance "recommend") (positions_of contest task seats)
        ≡ true
      → All Recommends seats
  all-Recommends [] h k = tt
  all-Recommends (s ∷ seats) (h, hs) k =
      (Sat-Recommends s h (ground (arith, k)), all-Recommends seats hs (ground (arith, k)))
