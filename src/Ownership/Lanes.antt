-- ===== src/Ownership/Lanes.antt =====
-- The lanes and the claims of harness/ownership.py, over all writes.
use harnessie.Prelude.{
  ◌≡◌, refl, String, Option, none, some, List, [], ◌∷◌, ◌++◌, Bool, true, false, ◌||◌, any, str_eq,
  str_eq_refl, lookup, insert, lookup-insert, arith, eq_iff, Bool-cases, inl, inr,
}
use harnessie.Ownership.{
  OwnershipDecision, OwnershipLedger, or_else, claimed_by_others, lanes_of_others,
  confinement_patterns, isolated_patterns, first_match, agent_lane_decision, declared_decision,
  claimed_decision, decision_or, explain_write, check_write, claim,
}

any-append {ℓ} :
    {A : Type ℓ} (p : A → Bool) (xs ys : List A) → any p (xs ++ ys) ≡ (any p xs || any p ys)
any-append p [] ys = refl
any-append p (x ∷ xs) ys = ground (arith, any-append p xs ys)

module _ (fnmatch : String → String → Bool) (repr : String → String) where
  -- A decision that refuses holds under a condition; no decision refuses nothing.
  abbrev Refuses : Option OwnershipDecision → Bool → Type 0
  Refuses none b = Unit
  Refuses (some d) b = d.allowed ≡ false → b ≡ true

  Refuses-or_else :
      (d e : Option OwnershipDecision) (b : Bool)
      → Refuses d b
      → Refuses e b
      → Refuses (or_else d e) b
  unfolding or_else
  Refuses-or_else (some d) e b h k = h
  Refuses-or_else none e b h k = k

  weaken-Refuses :
      (d : Option OwnershipDecision) (b c : Bool)
      → (b ≡ true → c ≡ true)
      → Refuses d b
      → Refuses d c
  weaken-Refuses none b c i h = tt
  weaken-Refuses (some d) b c i h = λ r. i (h r)

  -- What the first match decides is decided by a pattern that matches.
  first_match-Refuses :
      (decide : String → OwnershipDecision) (rel : String) (ps : List String)
      → Refuses (first_match fnmatch repr decide rel ps) (any (fnmatch rel) ps)
  unfolding first_match
  first_match-Refuses decide rel [] = tt
  first_match-Refuses decide rel (p ∷ ps) = elim (Bool-cases (fnmatch rel p)) [
    | inl e ↦ rw e (λ r. refl)
    | inr e ↦ rw e (first_match-Refuses decide rel ps)
  ]

  -- What matches nothing decides nothing.
  first_match-allows :
      (decide : String → OwnershipDecision) (rel : String) (ps : List String) (b : Bool)
      → ((p : String) → (decide p).allowed ≡ true)
      → Refuses (first_match fnmatch repr decide rel ps) b
  unfolding first_match
  first_match-allows decide rel [] b h = tt
  first_match-allows decide rel (p ∷ ps) b h = elim (Bool-cases (fnmatch rel p)) [
    | inl e ↦ rw e (λ r. cc (h p))
    | inr e ↦ rw e (first_match-allows decide rel ps b h)
  ]

  agent_lane-Refuses :
      (agent rel : String) (lanes : List (String × List String))
      → Refuses
          (agent_lane_decision fnmatch repr agent rel lanes)
          (any (fnmatch rel) (lanes_of_others agent lanes))
  unfolding agent_lane_decision lanes_of_others
  agent_lane-Refuses agent rel [] = tt
  agent_lane-Refuses agent rel ((owner, globs) ∷ lanes) = elim (Bool-cases (str_eq owner agent)) [
    | inl e ↦ rw e (
        Refuses-or_else _ _ _ (first_match-allows _ rel globs _ (λ p. refl))
          (agent_lane-Refuses agent rel lanes))
    | inr e ↦ rw e (
        Refuses-or_else _ _ _
          (weaken-Refuses _ (any (fnmatch rel) globs) _
            (λ h. ground (arith, any-append (fnmatch rel) globs (lanes_of_others agent lanes)))
            (first_match-Refuses _ rel globs))
          (weaken-Refuses _ (any (fnmatch rel) (lanes_of_others agent lanes)) _
            (λ h. ground (arith, any-append (fnmatch rel) globs (lanes_of_others agent lanes)))
            (agent_lane-Refuses agent rel lanes)))
  ]

  declared-Refuses :
      (ledger : OwnershipLedger) (agent rel : String)
      → Refuses
          (declared_decision fnmatch repr ledger agent rel)
          (any (fnmatch rel) (isolated_patterns ledger agent))
  unfolding declared_decision isolated_patterns
  declared-Refuses ledger agent rel =
      let parts =
        any-append (fnmatch rel) ledger.operator (lanes_of_others agent ledger.agent_lanes) in
      Refuses-or_else _ _ _
        (weaken-Refuses _ (any (fnmatch rel) ledger.operator) _ (λ h. ground (arith, parts))
          (first_match-Refuses _ rel ledger.operator))
        (Refuses-or_else _ _ _
          (weaken-Refuses _ (any (fnmatch rel) (lanes_of_others agent ledger.agent_lanes)) _
            (λ h. ground (arith, parts)) (agent_lane-Refuses agent rel ledger.agent_lanes))
          (first_match-allows _ rel ledger.collaborative _ (λ p. refl)))

  claimed-Refuses :
      (agent rel : String) (files : List (String × String))
      → fnmatch rel rel ≡ true
      → Refuses
          (some (claimed_decision fnmatch repr agent rel (lookup rel files)))
          (any (fnmatch rel) (claimed_by_others agent files))
  unfolding claimed_decision claimed_by_others
  claimed-Refuses agent rel [] h r = cc
  claimed-Refuses agent rel ((path, owner) ∷ files) h r =
      ground (arith, eq_iff path rel, eq_iff owner agent, h, r, claimed-Refuses agent rel files h)

  decided_confined :
      (ledger : OwnershipLedger) (agent rel : String) (d : Option OwnershipDecision)
      → fnmatch rel rel ≡ true
      → Refuses d (any (fnmatch rel) (isolated_patterns ledger agent))
      → (decision_or (claimed_decision fnmatch repr agent rel (lookup rel ledger.files)) d).allowed
        ≡ false
      → any (fnmatch rel) (confinement_patterns ledger agent) ≡ true
  unfolding decision_or confinement_patterns isolated_patterns
  decided_confined ledger agent rel (some d) h k r =
      let found = k r in
      ground (
        arith,
        found,
        any-append (fnmatch rel) ledger.operator (lanes_of_others agent ledger.agent_lanes),
        any-append (fnmatch rel) (lanes_of_others agent ledger.agent_lanes)
            (claimed_by_others agent ledger.files),
        any-append (fnmatch rel) ledger.operator
            (lanes_of_others agent ledger.agent_lanes ++ claimed_by_others agent ledger.files),
      )
  decided_confined ledger agent rel none h k r =
      let found = claimed-Refuses agent rel ledger.files h r in
      ground (
        arith,
        found,
        any-append (fnmatch rel) (lanes_of_others agent ledger.agent_lanes)
            (claimed_by_others agent ledger.files),
        any-append (fnmatch rel) ledger.operator
            (lanes_of_others agent ledger.agent_lanes ++ claimed_by_others agent ledger.files),
      )

  -- The subprocess overlay covers the ledger: a write that `explain_write` refuses, in a shared
  -- workspace, is of a path that one of the agent's confinement patterns matches, where `fnmatch`
  -- matches the path with itself.
  pub refused_confined :
      (ledger : OwnershipLedger) (agent rel : String)
      → fnmatch rel rel ≡ true
      → (explain_write fnmatch repr ledger agent rel).allowed ≡ false
      → any (fnmatch rel) (confinement_patterns ledger agent) ≡ true
  unfolding explain_write
  refused_confined ledger agent rel h r =
      decided_confined ledger agent rel (declared_decision fnmatch repr ledger agent rel) h
        (declared-Refuses ledger agent rel) r

  claim-new :
      (ledger later : OwnershipLedger) (agent rel : String) (found : Option String)
      → (elim found as (λ _. Bool × OwnershipLedger) [
        | some _ ↦ (false, ledger)
        | none ↦ (true, record ledger { files = insert rel agent ledger.files })
      ])
        ≡ (true, later)
      → later ≡ record ledger { files = insert rel agent ledger.files }
  claim-new ledger later agent rel none h = cc
  claim-new ledger later agent rel (some o) h = cc

module _ (fnmatch : String → String → Bool) (repr : String → String) where
  check_write-files :
      (ledger : OwnershipLedger) (agent owner rel : String)
      → declared_decision fnmatch repr ledger agent rel ≡ none
      → lookup rel ledger.files ≡ some owner
      → (check_write fnmatch repr ledger agent rel).0 ≡ str_eq owner agent
  unfolding check_write explain_write decision_or claimed_decision
  check_write-files ledger agent owner rel none_declared found =
      rw (none_declared, found) (ground arith)

  -- `files` is not looked at for the lanes.
  declared-files :
      (ledger : OwnershipLedger) (files : List (String × String)) (agent rel : String)
      → declared_decision fnmatch repr ledger agent rel ≡ none
      → declared_decision fnmatch repr (record ledger { files = files }) agent rel ≡ none
  unfolding declared_decision
  declared-files ledger files agent rel h = h

  claim_recorded :
      (ledger later : OwnershipLedger) (agent rel : String)
      → claim fnmatch repr ledger agent rel ≡ (true, later)
      → later ≡ record ledger { files = insert rel agent ledger.files }
  unfolding claim
  claim_recorded ledger later agent rel h =
      elim (Bool-cases (any (fnmatch rel) ledger.collaborative)) [
        | inl e ↦ cc (rw e at h)
        | inr e ↦ elim (Bool-cases (any (fnmatch rel) ledger.operator)) [
          | inl f ↦ cc (rw (e, f) at h)
          | inr f ↦
              claim-new fnmatch repr ledger later agent rel (lookup rel ledger.files)
                (rw (e, f) at h)
        ]
      ]

  -- First writer owns: after a claim that was recorded, an agent to whom no declared lane speaks about
  -- the path may write it exactly if it is the claimant.
  pub check_write-claim :
      (ledger later : OwnershipLedger) (agent other rel : String)
      → claim fnmatch repr ledger agent rel ≡ (true, later)
      → declared_decision fnmatch repr ledger other rel ≡ none
      → (check_write fnmatch repr later other rel).0 ≡ str_eq agent other
  check_write-claim ledger later agent other rel claimed undeclared =
      let recorded = claim_recorded ledger later agent rel claimed in
      check_write-files later other agent rel
        (rw recorded (declared-files ledger _ other rel undeclared))
        (rw (recorded, lookup-insert rel rel agent ledger.files, str_eq_refl rel) refl)
