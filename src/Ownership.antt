-- ===== src/Ownership.antt =====
-- harness/ownership.py: which agent may write which file of the workspace.
-- `fnmatch` is Python's glob test, `fnmatch path pattern`; `repr` prints a text. A ledger stands for its
-- file: `save` writes what the record holds.
pub mod Lanes
use harnessie.Prelude.{
  String, ◌<>◌, Option, none, some, List, [], ◌∷◌, ◌++◌, Bool, true, false, not, if◌then◌else◌, any,
  str_eq, lookup, insert,
}

pub record OwnershipDecision : Type 0 where
  pub allowed : Bool
  pub agent : String
  pub path : String
  pub source : String
  pub reason : String
  pub owner : Option String
  pub pattern : Option String
  pub remedy : Option String

-- `agent_lanes` keeps the order of the file.
pub record OwnershipLedger : Type 0 where
  pub agent_lanes : List (String × List String)
  pub collaborative : List String
  pub operator : List String
  pub files : List (String × String)

-- The first of two answers that is one.
unfoldable pub or_else {ℓ} : {A : Type ℓ} → Option A → Option A → Option A
or_else (some a) later = some a
or_else none later = later

-- The paths that `files` gives to another agent.
unfoldable pub claimed_by_others : String → List (String × String) → List String
claimed_by_others agent [] = []
claimed_by_others agent ((path, owner) ∷ files) =
    let rest = claimed_by_others agent files in if str_eq owner agent then rest else path ∷ rest

-- The patterns of the other agents' lanes.
unfoldable pub lanes_of_others : String → List (String × List String) → List String
lanes_of_others agent [] = []
lanes_of_others agent ((owner, globs) ∷ lanes) =
    let rest = lanes_of_others agent lanes in if str_eq owner agent then rest else globs ++ rest

-- `OwnershipLedger.confinement_roots`, before the patterns become paths.
unfoldable pub confinement_patterns : OwnershipLedger → String → List String
confinement_patterns ledger agent =
    ledger.operator
    ++ (lanes_of_others agent ledger.agent_lanes ++ claimed_by_others agent ledger.files)

-- `IsolatedOwnershipView.confinement_roots`, before the patterns become paths.
unfoldable pub isolated_patterns : OwnershipLedger → String → List String
isolated_patterns ledger agent = ledger.operator ++ lanes_of_others agent ledger.agent_lanes

abbrev in_own_lane : String → String → String → String → OwnershipDecision
in_own_lane agent rel owner pattern = record {
  allowed = true;
  agent = agent;
  path = rel;
  source = "agent_lane";
  reason = "agent lane";
  owner = some owner;
  pattern = some pattern;
  remedy = none;
}

abbrev in_shared_lane : String → String → String → OwnershipDecision
in_shared_lane agent rel pattern = record {
  allowed = true;
  agent = agent;
  path = rel;
  source = "collaborative_lane";
  reason = "collaborative lane";
  owner = none;
  pattern = some pattern;
  remedy = none;
}

abbrev as_first_writer : String → String → Option String → String → OwnershipDecision
as_first_writer agent rel owner source = record {
  allowed = true;
  agent = agent;
  path = rel;
  source = source;
  reason = "unowned (first writer claims)";
  owner = owner;
  pattern = none;
  remedy = none;
}

unfoldable pub decision_or : OwnershipDecision → Option OwnershipDecision → OwnershipDecision
decision_or d (some declared) = declared
decision_or d none = d

module _ (fnmatch : String → String → Bool) (repr : String → String) where
  abbrev refused_by_operator : String → String → String → OwnershipDecision
  refused_by_operator agent rel pattern = record {
    allowed = false;
    agent = agent;
    path = rel;
    source = "operator_lane";
    reason =
        repr rel
        <> (" is in an operator-owned lane; no agent may "
            <> "write it. This is not negotiable at agent level.");
    owner = some "operator";
    pattern = some pattern;
    remedy = some "operator_reassignment";
  }

  abbrev in_other_lane : String → String → String → String → OwnershipDecision
  in_other_lane agent rel owner pattern = record {
    allowed = false;
    agent = agent;
    path = rel;
    source = "agent_lane";
    reason =
        repr rel
        <> (" is in the lane of agent "
            <> (repr owner
                <> (". You may not modify another agent's files; call "
                    <> "request_change to record what you need changed.")));
    owner = some owner;
    pattern = some pattern;
    remedy = some "request_change";
  }

  abbrev claimed_by_other : String → String → String → OwnershipDecision
  claimed_by_other agent rel claimed = record {
    allowed = false;
    agent = agent;
    path = rel;
    source = "first_writer";
    reason =
        repr rel
        <> (" is owned by agent "
            <> (repr claimed
                <> (" (first writer). You may not modify another agent's files; call "
                    <> "request_change to record what you need changed.")));
    owner = some claimed;
    pattern = none;
    remedy = some "request_change";
  }

  -- The first pattern that matches decides.
  unfoldable pub first_match :
      (String → OwnershipDecision) → String → List String → Option OwnershipDecision
  first_match decide rel [] = none
  first_match decide rel (pattern ∷ more) =
      let later = first_match decide rel more in
      if fnmatch rel pattern then some (decide pattern) else later

  abbrev lane_decision : String → String → String → Bool → String → OwnershipDecision
  lane_decision agent rel owner true pattern = in_own_lane agent rel owner pattern
  lane_decision agent rel owner false pattern = in_other_lane agent rel owner pattern

  -- The loop over `agent_lanes`.
  unfoldable pub agent_lane_decision :
      String → String → List (String × List String) → Option OwnershipDecision
  agent_lane_decision agent rel [] = none
  agent_lane_decision agent rel ((owner, globs) ∷ lanes) =
      or_else (first_match (lane_decision agent rel owner (str_eq owner agent)) rel globs)
        (agent_lane_decision agent rel lanes)

  -- `_declared_decision`
  unfoldable pub declared_decision : OwnershipLedger → String → String → Option OwnershipDecision
  declared_decision ledger agent rel =
      or_else (first_match (refused_by_operator agent rel) rel ledger.operator) (
        or_else (agent_lane_decision agent rel ledger.agent_lanes)
          (first_match (in_shared_lane agent rel) rel ledger.collaborative))

  -- What `files` says, behind the lanes.
  unfoldable pub claimed_decision : String → String → Option String → OwnershipDecision
  claimed_decision agent rel none = as_first_writer agent rel none "unowned"
  claimed_decision agent rel (some claimed) =
      if str_eq claimed agent
      then as_first_writer agent rel (some claimed) "first_writer"
      else claimed_by_other agent rel claimed

  unfoldable pub explain_write : OwnershipLedger → String → String → OwnershipDecision
  explain_write ledger agent rel =
      decision_or (claimed_decision agent rel (lookup rel ledger.files))
        (declared_decision ledger agent rel)

  unfoldable pub declared_write : OwnershipLedger → String → String → Option (Bool × String)
  declared_write ledger agent rel = elim (declared_decision ledger agent rel) [
    | none ↦ none
    | some decision ↦ some (decision.allowed, decision.reason)
  ]

  unfoldable pub check_write : OwnershipLedger → String → String → Bool × String
  check_write ledger agent rel =
      let decision = explain_write ledger agent rel in (decision.allowed, decision.reason)

  -- The answer, and the ledger that is saved with a new claim.
  unfoldable pub claim : OwnershipLedger → String → String → Bool × OwnershipLedger
  claim ledger agent rel =
      if any (fnmatch rel) ledger.collaborative
      then (false, ledger)
      else if any (fnmatch rel) ledger.operator
      then (false, ledger)
      else elim (lookup rel ledger.files) [
        | some _ ↦ (false, ledger)
        | none ↦ (true, record ledger { files = insert rel agent ledger.files })
      ]

  unfoldable pub lane_owner : String → List (String × List String) → Option String
  lane_owner rel [] = none
  lane_owner rel ((agent, globs) ∷ lanes) =
      let later = lane_owner rel lanes in if any (fnmatch rel) globs then some agent else later

  -- `OwnershipLedger.owner_of`
  unfoldable pub owner_of : OwnershipLedger → String → Option String
  owner_of ledger rel = or_else (lane_owner rel ledger.agent_lanes) (lookup rel ledger.files)

  -- `IsolatedOwnershipView.check_write`
  unfoldable pub isolated_check_write : OwnershipLedger → String → String → Bool × String
  isolated_check_write ledger agent rel = elim (declared_write ledger agent rel) [
    | some answer ↦ answer
    | none ↦ (true, "isolated phase workspace")
  ]
