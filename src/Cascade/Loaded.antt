-- ===== src/Cascade/Loaded.antt =====
-- The policies of a cascade file that `load_cascade_config` of harness/cascade.py has loaded.
use harnessie.Prelude.{
  ◌≡◌, refl, ap, subst, All, lookup, str_eq, Bool-cases, inl, inr, String, Option, none, some, List,
  [], ◌∷◌, Bool, true, false, if◌then◌else◌, Result, ok, raise, ◌>>=◌, ℤ,
}
use harnessie.Prelude.Values.{Value, str, int, boolean, seq_of, obj, null, Fields, end, field, get}
use harnessie.Cascade.{CascadePolicy, CascadeError, unknown_policy, post_init}
use harnessie.Cascade.Config.{CascadeConfig, policy}
use harnessie.Cascade.Load.{
  Conversion, LoadError, not_conversible, unknown_keys, policy_keys, checked, body_policy,
  policy_from, policy_of_body, policy_with_ladder, policy_of_known, load_policy, load_policies,
  policies_at, load_known, load_reserved, load_cascade_config,
}

ok_injective : {E A : Type 0} {a b : A} → ◌≡◌ {A = Result E A} (ok a) (ok b) → a ≡ b
ok_injective h = cc

module _ (conversion : Conversion) where
  checked-post_init :
      (q p : CascadePolicy) (r : Result CascadeError (Unit {0}))
      → post_init q ≡ r
      → checked conversion q r ≡ ok p
      → post_init p ≡ ok tt
  checked-post_init q p (raise e) h k = absurd (cc k)
  checked-post_init q p (ok tt) h k = cc (h, k)

  policy_from-checked :
      (name : String) (body : Fields) (tiers reasons classes : Result LoadError (List String))
      (most : Result LoadError ℤ) (p : CascadePolicy)
      → policy_from conversion name body tiers reasons most classes ≡ ok p
      → post_init p ≡ ok tt
  unfolding policy_from
  policy_from-checked name body (raise e) reasons classes most p h = absurd (cc h)
  policy_from-checked name body (ok t) (raise e) classes most p h = absurd (cc h)
  policy_from-checked name body (ok t) (ok r) (raise e) (raise f) p h = absurd (cc h)
  policy_from-checked name body (ok t) (ok r) (raise e) (ok m) p h = absurd (cc h)
  policy_from-checked name body (ok t) (ok r) (ok c) (raise e) p h = absurd (cc h)
  policy_from-checked name body (ok t) (ok r) (ok c) (ok m) p h =
      checked-post_init (body_policy conversion name body t r m c) p _ refl h

  with_ladder-checked :
      (name : String) (body : Fields) (o : Option Value) (p : CascadePolicy)
      → policy_with_ladder conversion name body o ≡ ok p
      → post_init p ≡ ok tt
  unfolding policy_of_body
  with_ladder-checked name body none p h = absurd (cc h)
  with_ladder-checked name body (some l) p h = policy_from-checked name body _ _ _ _ p h

  known-checked :
      (name : String) (body : Fields) (ks : List String) (p : CascadePolicy)
      → policy_of_known conversion name body ks ≡ ok p
      → post_init p ≡ ok tt
  known-checked name body (k ∷ ks) p h = absurd (cc h)
  known-checked name body [] p h = with_ladder-checked name body (get "ladder" body) p h

  pub load_policy-checked :
      (name : String) (v : Value) (p : CascadePolicy)
      → load_policy conversion name v ≡ ok p
      → post_init p ≡ ok tt
  unfolding load_policy policy_of_body
  load_policy-checked name (obj body) p h =
      known-checked name body (unknown_keys policy_keys body) p h
  load_policy-checked name (str _) p h = absurd (cc h)
  load_policy-checked name (Value.float _) p h = absurd (cc h)
  load_policy-checked name (int _) p h = absurd (cc h)
  load_policy-checked name (boolean _) p h = absurd (cc h)
  load_policy-checked name (seq_of _) p h = absurd (cc h)
  load_policy-checked name null p h = absurd (cc h)

  abbrev Checked : List (String × CascadePolicy) → Type 0
  Checked = All (λ (e : String × CascadePolicy). post_init e.1 ≡ ok tt)

  cons-Checked :
      (name : String) (r : Result LoadError CascadePolicy)
      (rs : Result LoadError (List (String × CascadePolicy))) (ps : List (String × CascadePolicy))
      → ((p : CascadePolicy) → r ≡ ok p → post_init p ≡ ok tt)
      → ((qs : List (String × CascadePolicy)) → rs ≡ ok qs → Checked qs)
      → (r >>= λ p. rs >>= λ qs. ok ((name, p) ∷ qs)) ≡ ok ps
      → Checked ps
  cons-Checked name (raise e) rs ps here later h = absurd (cc h)
  cons-Checked name (ok p) (raise e) ps here later h = absurd (cc h)
  cons-Checked name (ok p) (ok qs) ps here later h =
      subst Checked (ok_injective h) (here p refl, later qs refl)

  load_policies-Checked :
      (d : Fields) (ps : List (String × CascadePolicy))
      → load_policies conversion d ≡ ok ps
      → Checked ps
  unfolding load_policies
  load_policies-Checked end ps h = subst Checked (ok_injective h) tt
  load_policies-Checked (field name body others) ps h =
      cons-Checked name (load_policy conversion name body) (load_policies conversion others) ps
        (load_policy-checked name body) (load_policies-Checked others) h

  found-Checked :
      (name : String) (ps : List (String × CascadePolicy)) (p : CascadePolicy)
      → Checked ps
      → lookup name ps ≡ some p
      → post_init p ≡ ok tt
  found-Checked name [] p h l = absurd (cc l)
  found-Checked name ((n, q) ∷ ps) p (h, hs) l = elim (Bool-cases (str_eq n name)) [
    | inl e ↦ cc (h, rw e at l)
    | inr e ↦ found-Checked name ps p hs (rw e at l)
  ]

  falsy-Checked :
      (b : Bool) (ps : List (String × CascadePolicy))
      → (if b then raise not_conversible else ok []) ≡ ok ps
      → Checked ps
  falsy-Checked true ps h = absurd (cc h)
  falsy-Checked false ps h = subst Checked (ok_injective h) tt

  policies_at-Checked :
      (o : Option Value) (ps : List (String × CascadePolicy))
      → policies_at conversion o ≡ ok ps
      → Checked ps
  policies_at-Checked none ps h = subst Checked (ok_injective h) tt
  policies_at-Checked (some (obj d)) ps h = load_policies-Checked d ps h
  policies_at-Checked (some (str s)) ps h = falsy-Checked (conversion.truthy (str s)) ps h
  policies_at-Checked (some (Value.float s)) ps h =
      falsy-Checked (conversion.truthy (Value.float s)) ps h
  policies_at-Checked (some (int n)) ps h = falsy-Checked (conversion.truthy (int n)) ps h
  policies_at-Checked (some (boolean b)) ps h = falsy-Checked (conversion.truthy (boolean b)) ps h
  policies_at-Checked (some (seq_of vs)) ps h = falsy-Checked (conversion.truthy (seq_of vs)) ps h
  policies_at-Checked (some null) ps h = falsy-Checked (conversion.truthy null) ps h

  found-policy :
      (o : Option CascadePolicy) (name : String) (p : CascadePolicy)
      → elim o [ none ↦ raise (unknown_policy name) | some q ↦ ok q ] ≡ ok p
      → o ≡ some p
  found-policy none name p h = absurd (cc h)
  found-policy (some q) name p h = ap some (ok_injective h)

  config-Checked :
      (rs : Result LoadError (List String)) (ps : Result LoadError (List (String × CascadePolicy)))
      (c : CascadeConfig)
      → ((qs : List (String × CascadePolicy)) → ps ≡ ok qs → Checked qs)
      → (rs >>= λ reserved.
          ps >>= λ policies. ok (record { policies = policies; reserved = reserved }))
        ≡ ok c
      → Checked c.policies
  config-Checked (raise e) ps c each h = absurd (cc h)
  config-Checked (ok r) (raise e) c each h = absurd (cc h)
  config-Checked (ok r) (ok qs) c each h =
      subst (λ (d : CascadeConfig). Checked d.policies) (ok_injective h) (each qs refl)

  known_config-Checked :
      (raw : Fields) (ks : List String) (c : CascadeConfig)
      → load_known conversion raw ks ≡ ok c
      → Checked c.policies
  known_config-Checked raw (k ∷ ks) c h = absurd (cc h)
  known_config-Checked raw [] c h =
      config-Checked (load_reserved conversion (get "reserved" raw))
        (policies_at conversion (get "policies" raw)) c (policies_at-Checked (get "policies" raw)) h

  -- Every policy of a configuration that loads has passed the constructor's tests.
  pub load_cascade_config-checked :
      (file : Option Value) (c : CascadeConfig) (name : String) (p : CascadePolicy)
      → load_cascade_config conversion file ≡ ok c
      → policy c name ≡ ok p
      → post_init p ≡ ok tt
  unfolding load_cascade_config policy
  load_cascade_config-checked none c name p h named = absurd (cc (h, named))
  load_cascade_config-checked (some (obj raw)) c name p h named =
      found-Checked name c.policies p (known_config-Checked raw _ c h)
        (found-policy (lookup name c.policies) name p named)
  load_cascade_config-checked (some (str _)) c name p h named = absurd (cc h)
  load_cascade_config-checked (some (Value.float _)) c name p h named = absurd (cc h)
  load_cascade_config-checked (some (int _)) c name p h named = absurd (cc h)
  load_cascade_config-checked (some (boolean _)) c name p h named = absurd (cc h)
  load_cascade_config-checked (some (seq_of _)) c name p h named = absurd (cc h)
  load_cascade_config-checked (some null) c name p h named = absurd (cc h)
