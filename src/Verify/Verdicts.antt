-- ===== src/Verify/Verdicts.antt =====
-- `parse_verdict` of harness/verify.py.
use harnessie.Prelude.{
  ℕ, zero, suc, ◌-◌, String, ◌<>◌, Option, none, some, List, [], ◌∷◌, Bool, true, false, not, ◌||◌,
  if◌then◌else◌, any, keep, map, mem, str_eq, clip, Result, ok, raise,
}
use harnessie.Prelude.Values.{Value, str, boolean, seq_of, obj, Elements, to_list, Fields, get}
use harnessie.Verify.Defs.{ClaimVerdict, Verdict, claim_statuses, verdict}

-- `JSONDecoder.raw_decode`, the value and the characters used, or none on a JSONDecodeError; and
-- Python's printing and text operations. `show` is `str`, `show_index` prints a number.
pub record Reading : Type 0 where
  pub raw_decode : String → Option (Value × ℕ)
  pub repr : Value → String
  pub show : Value → String
  pub show_index : ℕ → String
  pub strip : String → String
  pub lower : String → String

abbrev is_brace : String → Bool
is_brace s = str_eq (clip 1 s) "{"

abbrev found_object : Value → List Fields → List Fields
found_object (obj o) rest = o ∷ rest
found_object _ rest = rest

-- `_json_objects`: `skip` counts the characters that the last object used.
unfoldable pub objects_from : (String → Option (Value × ℕ)) → ℕ → String → List Fields
objects_from raw_decode skip String.[] = []
objects_from raw_decode (suc skip) (String.◌∷◌ c s) = objects_from raw_decode skip s
objects_from raw_decode zero (String.◌∷◌ c s) =
    let next = objects_from raw_decode 0 s in
    if is_brace (String.◌∷◌ c s)
    then elim (raw_decode (String.◌∷◌ c s)) [
      | none ↦ next
      | some (v, consumed) ↦ found_object v (objects_from raw_decode (consumed - 1) s)
    ]
    else next

unfoldable pub failed_parse : String → Verdict
failed_parse reason = record {
  passed = false;
  reasons = reason;
  source = "verifier";
  overall_status = "cannot_verify";
  claims = [];
}

abbrev pub invalid : String → String
invalid s = "invalid structured verdict (failing closed): " <> s

abbrev text_of : Option Value → Option String
text_of (some (str s)) = some s
text_of _ = none

unfoldable pub or_text : String → Option Value → Option String
or_text default none = some default
or_text default (some (str s)) = some s
or_text default (some _) = none

unfoldable pub or_boolean : Bool → Option Value → Option Bool
or_boolean default none = some default
or_boolean default (some (boolean b)) = some b
or_boolean default (some _) = none

abbrev texts : List Value → Option (List String)
texts [] = some []
texts (str s ∷ vs) = elim (texts vs) [ none ↦ none | some ss ↦ some (s ∷ ss) ]
texts (_ ∷ vs) = none

unfoldable pub evidence_of : Option Value → Option (List String)
evidence_of none = some []
evidence_of (some (str s)) = some (s ∷ [])
evidence_of (some (seq_of vs)) = texts (to_list vs)
evidence_of (some _) = none

-- `raw.get("id", raw.get("claim_id"))`
abbrev id_of : Fields → Option Value
id_of raw = elim (get "id" raw) [ some v ↦ some v | none ↦ get "claim_id" raw ]

-- The parse goes on with what is there, or fails for a reason.
unfoldable pub needed : {A B : Type 0} → String → Option A → (A → Result String B) → Result String B
needed reason none k = raise (invalid reason)
needed reason (some a) k = k a

-- The parse fails for a reason, or goes on.
unfoldable pub refused_if : {B : Type 0} → Bool → String → Result String B → Result String B
refused_if true reason k = raise (invalid reason)
refused_if false reason k = k

-- The parse goes on behind a part that did not fail.
unfoldable pub and_then : {A B : Type 0} → Result String A → (A → Result String B) → Result String B
and_then (ok a) k = k a
and_then (raise reason) k = raise reason

abbrev fields_of : Value → Option Fields
fields_of (obj o) = some o
fields_of _ = none

unfoldable pub known_status : Option Value → Option String
known_status (some (str s)) = if mem s claim_statuses then some s else none
known_status _ = none

abbrev raw_claims : Option Value → Option (List Value)
raw_claims (some (seq_of (Elements.element v vs))) = some (v ∷ to_list vs)
raw_claims _ = none

unfoldable pub overall_status : List ClaimVerdict → String
overall_status required_claims =
    if any (λ c. str_eq c.status "refuted") required_claims
    then "failed"
    else if any (λ c. str_eq c.status "not_verifiable") required_claims
    then "cannot_verify"
    else "verified"

abbrev join : List String → String
join [] = ""
join (s ∷ []) = s
join (s ∷ ss) = s <> ("; " <> join ss)

abbrev finding : ClaimVerdict → String
finding claim =
    claim.claim_id
    <> (": "
        <> (claim.status
            <> (if str_eq claim.reason "" then "" else (" (" <> (claim.reason <> ")")))))

abbrev findings_text : List ClaimVerdict → String
findings_text required_claims =
    clip 2000 (join (map finding (keep (λ c. not (str_eq c.status "reproduced")) required_claims)))

-- The reasons that the verdict carries: those supplied, or the findings.
unfoldable pub reasons_of : String → List ClaimVerdict → String
reasons_of supplied required_claims =
    if not (str_eq supplied "")
    then clip 2000 supplied
    else if str_eq (findings_text required_claims) ""
    then "all required claims reproduced"
    else findings_text required_claims

abbrev pub required_of : List ClaimVerdict → List ClaimVerdict
required_of claims = keep (λ c. c.required) claims

abbrev pub is_empty : {A : Type 0} → List A → Bool
is_empty [] = true
is_empty (_ ∷ _) = false

abbrev has : String → Fields → Bool
has k o = elim (get k o) [ none ↦ false | some _ ↦ true ]

-- The last object that carries a verdict.
unfoldable pub last_verdict : Option Fields → List Fields → Option Fields
last_verdict found [] = found
last_verdict found (o ∷ os) =
    last_verdict (if has "passed" o || has "claims" o then some o else found) os

module _ (reading : Reading) where
  abbrev pub print_text : String → String
  print_text s = reading.repr (str s)

  abbrev non_blank : Option Value → Option String
  non_blank (some (str s)) = let t = reading.strip s in if str_eq t "" then none else some t
  non_blank _ = none

  abbrev show_option : Option Value → String
  show_option none = "None"
  show_option (some v) = reading.repr v

  -- One round of the loop over the claims, behind the id.
  unfoldable pub parse_rest : String → Fields → Result String ClaimVerdict
  parse_rest claim_id raw =
      needed
        ("claim "
          <> (print_text claim_id <> (" has unknown status " <> show_option (get "status" raw))))
        (known_status (get "status" raw))
        (λ status.
          needed ("claim " <> (print_text claim_id <> " required must be boolean"))
            (or_boolean true (get "required" raw))
            (λ required.
              needed ("claim " <> (print_text claim_id <> " reason must be a string"))
                (or_text "" (get "reason" raw))
                (λ reason.
                  needed
                    ("claim "
                      <> (print_text claim_id <> " evidence must be a string or array of strings"))
                    (evidence_of (get "evidence" raw))
                    (λ evidence. ok (record {
                      claim_id = claim_id;
                      status = status;
                      required = required;
                      reason = clip 2000 reason;
                      evidence = evidence;
                    })))))

  -- One round of the loop over the claims.
  unfoldable pub parse_claim : ℕ → List String → Value → Result String ClaimVerdict
  parse_claim index seen_ids value =
      needed ("claim " <> (reading.show_index index <> " must be an object")) (fields_of value)
        (λ raw.
          needed ("claim " <> (reading.show_index index <> " requires a non-empty id"))
            (non_blank (id_of raw))
            (λ claim_id.
              refused_if (mem claim_id seen_ids) ("duplicate claim id " <> print_text claim_id)
                (parse_rest claim_id raw)))

  -- The loop over the claims; `seen_ids` holds the ids before this one.
  unfoldable pub parse_each : ℕ → List String → List Value → Result String (List ClaimVerdict)
  parse_each index seen_ids [] = ok []
  parse_each index seen_ids (value ∷ values) = and_then (parse_claim index seen_ids value) (λ claim.
      and_then (parse_each (suc index) (claim.claim_id ∷ seen_ids) values)
        (λ claims. ok (claim ∷ claims)))

  -- The body of `_parse_claims`; a reason stands for a parse that failed.
  unfoldable pub parsed_claims : Fields → Result String Verdict
  parsed_claims o =
      needed "claims must be a non-empty array" (raw_claims (get "claims" o)) (λ values.
        and_then (parse_each 0 [] values) (λ claims.
          refused_if (is_empty (required_of claims)) "at least one claim must be required" (
            needed "reasons must be a string" (or_text "" (get "reasons" o)) (λ supplied.
              ok (record {
                passed = str_eq (overall_status (required_of claims)) "verified";
                reasons = reasons_of supplied (required_of claims);
                source = "verifier";
                overall_status = overall_status (required_of claims);
                claims = claims;
              })))))

  -- `_parse_claims`
  unfoldable pub parse_claims : Fields → Verdict
  parse_claims o = elim (parsed_claims o) [ raise reason ↦ failed_parse reason | ok v ↦ v ]

  abbrev is_true : Option Value → Bool
  is_true (some (boolean b)) = b
  is_true (some (str s)) = str_eq (reading.lower (reading.strip s)) "true"
  is_true _ = false

  abbrev shown : Option Value → String
  shown none = ""
  shown (some v) = reading.show v

  unfoldable pub verdict_of : String → Option Fields → Verdict
  verdict_of report none =
      failed_parse ("no JSON verdict object found (failing closed): " <> clip 500 report)
  verdict_of report (some o) =
      if has "claims" o
      then parse_claims o
      else verdict (is_true (get "passed" o)) (clip 2000 (shown (get "reasons" o))) "verifier"

  unfoldable pub parse_verdict : String → Verdict
  parse_verdict report =
      verdict_of report (last_verdict none (objects_from reading.raw_decode 0 report))
