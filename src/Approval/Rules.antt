-- ===== src/Approval/Rules.antt =====
-- What it takes for a policy to allow a call.
use harnessie.Prelude.{
  ◌≡◌, refl, String, Option, none, some, List, [], ◌∷◌, Bool, true, false, any, Bool-cases, inl,
  inr,
}
use harnessie.Prelude.Values.{Value, obj, Fields}
use harnessie.Approval.{
  load_root, matches, ApprovalPolicy, decide_clean, decide_with, decide, Printing, policy_of,
  load_checked, load, PolicyFile, missing, unreadable, parsed,
}

-- No problem, no rule that denies, and a rule that allows.
pub record AllowedBy (policy : ApprovalPolicy) (phase tool : String) : Type 0 where
  pub no_problem : policy.problems ≡ []
  pub not_denied : any (matches phase tool) policy.deny ≡ false
  pub allowed : any (matches phase tool) policy.allow ≡ true

decide_clean-true :
    (policy : ApprovalPolicy) (phase tool : String)
    → decide_clean policy phase tool ≡ some true
    → (any (matches phase tool) policy.deny ≡ false)
      × (any (matches phase tool) policy.allow ≡ true)
unfolding decide_clean
decide_clean-true policy phase tool h = elim (Bool-cases (any (matches phase tool) policy.deny)) [
  | inl e ↦ cc (rw e at h)
  | inr e ↦ elim (Bool-cases (any (matches phase tool) policy.allow)) [
    | inl f ↦ (e, f)
    | inr f ↦ cc (rw (e, f) at h)
  ]
]

decide_with-true :
    (problems : List String) (policy : ApprovalPolicy) (phase tool : String)
    → decide_with problems policy phase tool ≡ some true
    → (problems ≡ []) × (decide_clean policy phase tool ≡ some true)
unfolding decide_with
decide_with-true [] policy phase tool h = (refl, h)
decide_with-true (p ∷ ps) policy phase tool h = cc

decide-AllowedBy :
    (policy : ApprovalPolicy) (phase tool : String)
    → decide policy phase tool ≡ some true
    → AllowedBy policy phase tool
unfolding decide
decide-AllowedBy policy phase tool h =
    let (clean, said) = decide_with-true policy.problems policy phase tool h in
    let (not_denied, allowed) = decide_clean-true policy phase tool said in
    record { no_problem = clean; not_denied = not_denied; allowed = allowed }

-- The mapping that a policy's document is taken for, if it is one.
abbrev pub mapping_of : Value → Bool → Option Fields
mapping_of v false = some Fields.end
mapping_of (obj d) true = some d
mapping_of _ true = none

module _ (printing : Printing) (validate : Fields → List String) (phase tool : String) where
  load_checked-allows :
      (found : List String) (d : Fields)
      → decide (load_checked printing found d) phase tool ≡ some true
      → (found ≡ []) × AllowedBy (policy_of printing d) phase tool
  unfolding load_checked decide decide_with
  load_checked-allows [] d h = (refl, decide-AllowedBy (policy_of printing d) phase tool h)
  load_checked-allows (p ∷ ps) d h = cc

  load_root-allows :
      (v : Value) (truthy : Bool)
      → decide (load_root printing validate v truthy) phase tool ≡ some true
      → (d : Fields) × (mapping_of v truthy ≡ some d)
        × (validate d ≡ [])
        × AllowedBy (policy_of printing d) phase tool
  unfolding load_root decide decide_with
  load_root-allows v false h =
      let (valid, by) = load_checked-allows (validate Fields.end) Fields.end h in
      (Fields.end, refl, valid, by)
  load_root-allows (obj d) true h =
      let (valid, by) = load_checked-allows (validate d) d h in (d, refl, valid, by)
  load_root-allows (Value.str _) true h = cc
  load_root-allows (Value.float _) true h = cc
  load_root-allows (Value.int _) true h = cc
  load_root-allows (Value.boolean _) true h = cc
  load_root-allows (Value.seq_of _) true h = cc
  load_root-allows Value.null true h = cc

  -- A policy file allows a call only if it was read and parsed to a mapping that the schema accepts, its
  -- rules were read without a problem, no rule of it denies the call, and one allows it: deny wins, and
  -- every fault of the file denies.
  pub load-AllowedBy :
      (file : PolicyFile)
      → decide (load printing validate file) phase tool ≡ some true
      → (v : Value) × (d : Fields) × (file ≡ parsed v)
        × (mapping_of v (printing.truthy v) ≡ some d)
        × (validate d ≡ [])
        × AllowedBy (policy_of printing d) phase tool
  unfolding load decide decide_with
  load-AllowedBy (missing path) h = cc
  load-AllowedBy (unreadable kind) h = cc
  load-AllowedBy (parsed v) h =
      let (d, is_d, valid, by) = load_root-allows v (printing.truthy v) h in
      (v, d, refl, is_d, valid, by)
