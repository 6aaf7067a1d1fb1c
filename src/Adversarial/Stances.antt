-- ===== src/Adversarial/Stances.antt =====
-- The agents' stances and objections in harness/adversarial.py.
use harnessie.Prelude.{
  String, Option, none, some, List, [], ◌∷◌, Bool, true, false, ◌&&◌, if◌then◌else◌, all, map, mem,
  str_eq, clip,
}
use harnessie.Prelude.Values.{Value, str, seq_of, Fields, get, to_list}
use harnessie.Verify.{Reading, objects_from}

abbrev pub stances : List String
stances = "recommend" ∷ "oppose" ∷ "alternative" ∷ "abstain" ∷ []

pub record PositionRecord : Type 0 where
  pub label : String
  pub agent : String
  pub model_id : String
  pub provider : String
  pub stance : String
  pub summary : String
  pub prose : String

-- Every objection is to the record.
pub record Objection : Type 0 where
  pub by : String
  pub text : String

pub record Stance : Type 0 where
  pub stance : String
  pub summary : String

abbrev has_key : Option Value → Bool
has_key none = false
has_key (some _) = true

-- The last object that has the key.
abbrev pub last_with : String → List Fields → Option Fields
last_with key [] = none
last_with key (d ∷ ds) =
    let later = last_with key ds in
    elim later [ some e ↦ some e | none ↦ if has_key (get key d) then some d else none ]

module _ (reading : Reading) where
  abbrev text_or_empty : Option Value → String
  text_or_empty none = ""
  text_or_empty (some v) = reading.show v

  -- Only a text is equal to one of the stances.
  unfoldable pub stance_of : Option Value → Fields → Option Stance
  stance_of (some (str s)) d =
      if mem s stances
      then some (record { stance = s; summary = clip 500 (text_or_empty (get "summary" d)) })
      else none
  stance_of _ d = none

  unfoldable pub stance_in : Option Fields → Option Stance
  stance_in none = none
  stance_in (some d) = stance_of (get "stance" d) d

  unfoldable pub parse_stance : String → Option Stance
  parse_stance report = stance_in (last_with "stance" (objects_from reading.raw_decode 0 report))

  unfoldable pub objections_of : Option Value → Option (List String)
  objections_of (some (seq_of vs)) = some (map (λ v. clip 500 (reading.show v)) (to_list vs))
  objections_of _ = none

  unfoldable pub objections_in : Option Fields → Option (List String)
  objections_in none = none
  objections_in (some d) = objections_of (get "objections" d)

  -- Its flag `no_new_objection` is read by nobody and left out.
  unfoldable pub parse_objection_response : String → Option (List String)
  parse_objection_response report =
      objections_in (last_with "objections" (objects_from reading.raw_decode 0 report))

abbrev pub is_empty {ℓ} : {A : Type ℓ} → List A → Bool
is_empty [] = true
is_empty (_ ∷ _) = false

unfoldable pub converged : List PositionRecord → List Objection → Bool
converged [] objections = false
converged (p ∷ ps) objections =
    all (λ q. str_eq q.stance "recommend") (p ∷ ps) && is_empty objections
