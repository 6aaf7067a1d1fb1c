-- ===== src/Cascade/Load.antt =====
-- `load_cascade_config` of harness/cascade.py, from the parsed document on.
use harnessie.Prelude.{
  String, Option, none, some, List, [], ◌∷◌, Bool, false, if◌then◌else◌, mem, Result, ok, raise,
  ◌>>=◌, ℤ, negsuc,
}
use harnessie.Prelude.Values.{
  Value, str, seq_of, obj, Elements, done, element, Fields, end, field, get,
}
use harnessie.Cascade.{CascadePolicy, CascadeError, post_init}
use harnessie.Cascade.Config.{CascadeConfig}

-- `to_text` is `str`, `truthy` the truth of a value, and `to_int` is `int`, none on what it raises.
-- `to_texts` is `tuple` of a value's items, none on what is no sequence.
pub record Conversion : Type 0 where
  pub to_text : Value → String
  pub truthy : Value → Bool
  pub to_int : Value → Option ℤ
  pub to_texts : Value → Option (List String)

pub data LoadError : Type 0 where
  not_a_mapping not_conversible reserved_not_names : LoadError
  unknown_top_level : List String → LoadError
  policy_not_a_mapping missing_ladder : String → LoadError
  unknown_policy_keys : String → List String → LoadError
  invalid_policy : CascadeError → LoadError

abbrev pub policy_keys : List String
policy_keys =
    "ladder" ∷ "escalate_on" ∷ "max_climb" ∷ "on_exhaust" ∷ "data_classes" ∷ "contained" ∷ []

abbrev pub unknown_keys : List String → Fields → List String
unknown_keys known end = []
unknown_keys known (field k v d) =
    let rest = unknown_keys known d in if mem k known then rest else k ∷ rest

abbrev all_texts : Elements → Option (List String)
all_texts done = some []
all_texts (element (str s) vs) = elim (all_texts vs) [ none ↦ none | some ss ↦ some (s ∷ ss) ]
all_texts (element _ vs) = none

abbrev or_raise : {A : Type 0} → LoadError → Option A → Result LoadError A
or_raise e none = raise e
or_raise e (some a) = ok a

module _ (conversion : Conversion) where
  open conversion use {to_text, truthy, to_int, to_texts}

  abbrev texts_at : String → List String → Fields → Result LoadError (List String)
  texts_at key default body = elim (get key body) [
    | none ↦ ok default
    | some v ↦ or_raise not_conversible (to_texts v)
  ]

  abbrev int_at : String → ℤ → Fields → Result LoadError ℤ
  int_at key default body = elim (get key body) [
    | none ↦ ok default
    | some v ↦ or_raise not_conversible (to_int v)
  ]

  abbrev pub checked :
      CascadePolicy → Result CascadeError (Unit {0}) → Result LoadError CascadePolicy
  checked p (raise e) = raise (invalid_policy e)
  checked p (ok _) = ok p

  abbrev pub body_policy :
      String → Fields → List String → List String → ℤ → List String → CascadePolicy
  body_policy name body tiers reasons most classes = record {
    name = name;
    ladder = tiers;
    escalate_on = reasons;
    max_climb = most;
    on_exhaust = elim (get "on_exhaust" body) [ none ↦ "defer" | some v ↦ to_text v ];
    data_classes = classes;
    contained = elim (get "contained" body) [ none ↦ false | some v ↦ truthy v ];
  }

  -- The constructor's arguments, in the order in which they are computed; the constructor validates.
  unfoldable pub policy_from :
      String
      → Fields
      → Result LoadError (List String)
      → Result LoadError (List String)
      → Result LoadError ℤ
      → Result LoadError (List String)
      → Result LoadError CascadePolicy
  policy_from name body (raise e) reasons most classes = raise e
  policy_from name body (ok tiers) (raise e) most classes = raise e
  policy_from name body (ok tiers) (ok reasons) (raise e) classes = raise e
  policy_from name body (ok tiers) (ok reasons) (ok most) (raise e) = raise e
  policy_from name body (ok tiers) (ok reasons) (ok most) (ok classes) =
      let p = body_policy name body tiers reasons most classes in checked p (post_init p)

  unfoldable pub policy_of_body : String → Value → Fields → Result LoadError CascadePolicy
  policy_of_body name ladder body =
      policy_from name body (or_raise not_conversible (to_texts ladder))
        (texts_at "escalate_on" ("gate_fail" ∷ []) body) (int_at "max_climb" (negsuc 0) body)
        (texts_at "data_classes" [] body)

  abbrev pub policy_with_ladder : String → Fields → Option Value → Result LoadError CascadePolicy
  policy_with_ladder name body none = raise (missing_ladder name)
  policy_with_ladder name body (some ladder) = policy_of_body name ladder body

  abbrev pub policy_of_known : String → Fields → List String → Result LoadError CascadePolicy
  policy_of_known name body (k ∷ ks) = raise (unknown_policy_keys name (k ∷ ks))
  policy_of_known name body [] = policy_with_ladder name body (get "ladder" body)

  unfoldable pub load_policy : String → Value → Result LoadError CascadePolicy
  load_policy name (obj body) = policy_of_known name body (unknown_keys policy_keys body)
  load_policy name _ = raise (policy_not_a_mapping name)

  unfoldable pub load_policies : Fields → Result LoadError (List (String × CascadePolicy))
  load_policies end = ok []
  load_policies (field name body others) =
      load_policy name body >>= λ p. load_policies others >>= λ ps. ok ((name, p) ∷ ps)

  -- `raw.get("reserved") or []`
  unfoldable pub load_reserved : Option Value → Result LoadError (List String)
  load_reserved none = ok []
  load_reserved (some (seq_of vs)) = or_raise reserved_not_names (all_texts vs)
  load_reserved (some v) = if truthy v then raise reserved_not_names else ok []

  abbrev pub policies_at : Option Value → Result LoadError (List (String × CascadePolicy))
  policies_at none = ok []
  policies_at (some (obj d)) = load_policies d
  policies_at (some v) = if truthy v then raise not_conversible else ok []

  abbrev pub load_known : Fields → List String → Result LoadError CascadeConfig
  load_known raw (k ∷ ks) = raise (unknown_top_level (k ∷ ks))
  load_known raw [] = load_reserved (get "reserved" raw) >>= λ reserved.
      policies_at (get "policies" raw) >>= λ policies.
      ok (record { policies = policies; reserved = reserved })

  -- `load_cascade_config`; `none` stands for a missing file.
  unfoldable pub load_cascade_config : Option Value → Result LoadError CascadeConfig
  load_cascade_config none = ok (record { policies = []; reserved = [] })
  load_cascade_config (some (obj raw)) =
      load_known raw (unknown_keys ("schema_version" ∷ "policies" ∷ "reserved" ∷ []) raw)
  load_cascade_config (some _) = raise not_a_mapping
