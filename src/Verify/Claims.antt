-- ===== src/Verify/Claims.antt =====
-- What a structured verdict that passes has in its claims.
use harnessie.Prelude.{
  ℕ, suc, ◌≡◌, refl, sym, ap, subst, String, Option, none, some, List, [], ◌∷◌, Bool, true, false,
  if◌then◌else◌, any, All, keep, mem, str_eq, Result, ok, raise, arith, Bool-cases, inl, inr,
  eq_iff,
}
use harnessie.Prelude.Values.{Value, str, Fields}
use harnessie.Verify.Defs.{ClaimVerdict, Verdict, claim_statuses}
use harnessie.Verify.Verdicts.{
  and_then, needed, refused_if, known_status, parse_rest, Reading, parse_rest, needed, refused_if,
  and_then, known_status, is_empty, parse_claim, parse_each, overall_status, required_of,
  parsed_claims, parse_claims, failed_parse,
}

needed-ok :
    {A B : Type 0} (reason : String) (found : Option A) (k : A → Result String B) {b : B}
    → needed reason found k ≡ ok b
    → (a : A) × (found ≡ some a) × (k a ≡ ok b)
unfolding needed
needed-ok reason none k h = cc
needed-ok reason (some a) k h = (a, refl, h)

refused_if-ok :
    {B : Type 0} (c : Bool) (reason : String) (k : Result String B) {b : B}
    → refused_if c reason k ≡ ok b
    → (c ≡ false) × (k ≡ ok b)
unfolding refused_if
refused_if-ok true reason k h = cc
refused_if-ok false reason k h = (refl, h)

and_then-ok :
    {A B : Type 0} (m : Result String A) (k : A → Result String B) {b : B}
    → and_then m k ≡ ok b
    → (a : A) × (m ≡ ok a) × (k a ≡ ok b)
unfolding and_then
and_then-ok (ok a) k h = (a, refl, h)
and_then-ok (raise reason) k h = cc

ok-injective : {E A : Type 0} {a b : A} → ◌≡◌ {A = Result E A} (ok a) (ok b) → a ≡ b
ok-injective h = cc

some_of_if :
    (b : Bool) (t s : String) → (if b then some t else none) ≡ some s → (b ≡ true) × (t ≡ s)
some_of_if true t s h = (refl, cc)
some_of_if false t s h = cc

known_status-mem :
    (v : Option Value) (s : String) → known_status v ≡ some s → mem s claim_statuses ≡ true
unfolding known_status
known_status-mem (some (str t)) s h =
    let (found, same) = some_of_if (mem t claim_statuses) t s h in
    subst (λ x. mem x claim_statuses ≡ true) same found
known_status-mem (some (Value.seq_of _)) s h = cc
known_status-mem (some (Value.float _)) s h = cc
known_status-mem (some (Value.int _)) s h = cc
known_status-mem (some (Value.boolean _)) s h = cc
known_status-mem (some (Value.obj _)) s h = cc
known_status-mem (some Value.null) s h = cc
known_status-mem none s h = cc

-- A claim that is reproduced, where the status of the whole is `verified`.
by_flags :
    (refuted unverifiable : Bool)
    → str_eq
        (if refuted then "failed" else if unverifiable then "cannot_verify" else "verified")
        "verified"
      ≡ true
    → (refuted ≡ false) × (unverifiable ≡ false)
by_flags true unverifiable h = absurd (cc)
by_flags false true h = absurd (cc)
by_flags false false h = (refl, refl)

overall_status-verified :
    (cs : List ClaimVerdict)
    → str_eq (overall_status cs) "verified" ≡ true
    → (any (λ c. str_eq c.status "refuted") cs ≡ false)
      × (any (λ c. str_eq c.status "not_verifiable") cs ≡ false)
unfolding overall_status
overall_status-verified cs h =
    let refuted = any (λ c. str_eq c.status "refuted") cs in
    let unverifiable = any (λ c. str_eq c.status "not_verifiable") cs in
    by_flags refuted unverifiable h

-- A claim is refuted, not verifiable or reproduced.
none_other :
    (cs : List ClaimVerdict)
    → All (λ c. mem c.status claim_statuses ≡ true) cs
    → any (λ c. str_eq c.status "refuted") cs ≡ false
    → any (λ c. str_eq c.status "not_verifiable") cs ≡ false
    → All (λ c. str_eq c.status "reproduced" ≡ true) cs
none_other [] known refuted unverifiable = tt
none_other (c ∷ cs) known refuted unverifiable = (
  ground (
    arith,
    known.0,
    eq_iff "reproduced" c.status,
    eq_iff c.status "reproduced",
    eq_iff "refuted" c.status,
    eq_iff c.status "refuted",
    eq_iff "not_verifiable" c.status,
    eq_iff c.status "not_verifiable",
  ),
  none_other cs known.1 (ground (arith, refuted)) (ground (arith, unverifiable)),
)

overall_status-reproduced :
    (cs : List ClaimVerdict)
    → All (λ c. mem c.status claim_statuses ≡ true) cs
    → str_eq (overall_status cs) "verified" ≡ true
    → All (λ c. str_eq c.status "reproduced" ≡ true) cs
overall_status-reproduced cs known h =
    let (refuted, open_claims) = overall_status-verified cs h in
    none_other cs known refuted open_claims

-- No claim repeats an id of `seen` or of a claim before it, and each has a known status.
abbrev pub Adjudicated : List String → List ClaimVerdict → Type 0
Adjudicated seen [] = Unit
Adjudicated seen (c ∷ cs) =
    (mem c.claim_id seen ≡ false)
    × (mem c.status claim_statuses ≡ true)
    × Adjudicated (c.claim_id ∷ seen) cs

-- The required claims have known statuses too.
required-known :
    (seen : List String) (cs : List ClaimVerdict)
    → Adjudicated seen cs
    → All (λ c. mem c.status claim_statuses ≡ true) (keep (λ c. c.required) cs)
required-known seen [] h = tt
required-known seen (c ∷ cs) h = elim (Bool-cases c.required) [
  | inl e ↦ rw e (h.1, required-known (c.claim_id ∷ seen) cs h.2)
  | inr e ↦ rw e (required-known (c.claim_id ∷ seen) cs h.2)
]

module _ (reading : Reading) where
  parse_rest-ok :
      (claim_id : String) (raw : Fields) (c : ClaimVerdict)
      → parse_rest reading claim_id raw ≡ ok c
      → (c.claim_id ≡ claim_id) × (mem c.status claim_statuses ≡ true)
  unfolding parse_rest
  parse_rest-ok claim_id raw c h =
      let (status, is_status, h1) = needed-ok _ _ _ h in
      let (required, _, h2) = needed-ok _ _ _ h1 in
      let (reason, _, h3) = needed-ok _ _ _ h2 in
      let (evidence, _, h4) = needed-ok _ _ _ h3 in
      let found = known_status-mem _ status is_status in
      let e = ok-injective h4 in
      (sym (ap (λ d. d.claim_id) e), subst (λ d. mem d.status claim_statuses ≡ true) e found)

  parse_claim-ok :
      (index : ℕ) (seen : List String) (value : Value) (c : ClaimVerdict)
      → parse_claim reading index seen value ≡ ok c
      → (mem c.claim_id seen ≡ false) × (mem c.status claim_statuses ≡ true)
  unfolding parse_claim
  parse_claim-ok index seen value c h =
      let (raw, _, h1) = needed-ok _ _ _ h in
      let (claim_id, _, h2) = needed-ok _ _ _ h1 in
      let (fresh, h3) = refused_if-ok _ _ _ h2 in
      let (same, known) = parse_rest-ok claim_id raw c h3 in (rw same fresh, known)

  parse_each-Adjudicated :
      (index : ℕ) (seen : List String) (values : List Value) (cs : List ClaimVerdict)
      → parse_each reading index seen values ≡ ok cs
      → Adjudicated seen cs
  unfolding parse_each
  parse_each-Adjudicated index seen [] cs h = subst (Adjudicated seen) (ok-injective h) tt
  parse_each-Adjudicated index seen (value ∷ values) cs h =
      let (c, one, h1) = and_then-ok _ _ h in
      let (rest, more, h2) = and_then-ok _ _ h1 in
      let (fresh, known) = parse_claim-ok index seen value c one in
      subst (Adjudicated seen) (ok-injective h2)
        (fresh, known, parse_each-Adjudicated (suc index) (c.claim_id ∷ seen) values rest more)

  -- What a verdict on claims has that passes: a required claim, and none of the required claims open or
  -- refuted; and no id twice.
  pub record PassedClaims (v : Verdict) : Type 0 where
    pub adjudicated : Adjudicated [] v.claims
    pub some_required : is_empty (required_of v.claims) ≡ false
    pub all_reproduced : All (λ c. str_eq c.status "reproduced" ≡ true) (required_of v.claims)

  parsed_claims-PassedClaims :
      (o : Fields) (v : Verdict) → parsed_claims reading o ≡ ok v → v.passed ≡ true → PassedClaims v
  unfolding parsed_claims
  parsed_claims-PassedClaims o v h passed =
      let (values, _, h1) = needed-ok _ _ _ h in
      let (claims, parsed, h2) = and_then-ok _ _ h1 in
      let (required, h3) = refused_if-ok _ _ _ h2 in
      let (supplied, _, h4) = needed-ok _ _ _ h3 in
      let e = ok-injective h4 in
      let adjudicated = parse_each-Adjudicated 0 [] values claims parsed in
      subst PassedClaims e (record {
        adjudicated = adjudicated;
        some_required = required;
        all_reproduced =
            overall_status-reproduced _ (required-known [] claims adjudicated)
              (subst (λ d. d.passed ≡ true) (sym e) passed);
      })

  by_result :
      (r : Result String Verdict)
      → ((v : Verdict) → r ≡ ok v → v.passed ≡ true → PassedClaims v)
      → (elim r as (λ _. Verdict) [ raise reason ↦ failed_parse reason | ok v ↦ v ]).passed ≡ true
      → PassedClaims (elim r as (λ _. Verdict) [ raise reason ↦ failed_parse reason | ok v ↦ v ])
  unfolding failed_parse
  by_result (ok v) f p = f v refl p
  by_result (raise reason) f p = cc

  -- A verdict on claims that passes has no claim id twice and only known statuses, has a required
  -- claim, and all its required claims are reproduced.
  pub parse_claims-PassedClaims :
      (o : Fields) → (parse_claims reading o).passed ≡ true → PassedClaims (parse_claims reading o)
  unfolding parse_claims failed_parse
  parse_claims-PassedClaims o passed =
      by_result (parsed_claims reading o) (λ v e p. parsed_claims-PassedClaims o v e p) passed
