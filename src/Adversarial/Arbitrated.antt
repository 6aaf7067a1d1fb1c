-- ===== src/Adversarial/Arbitrated.antt =====
-- What the claim `human-arbitrated` of `lint_record` in harness/adversarial.py stands for.
use harnessie.Prelude.{
  ◌≡◌, refl, subst, String, List, [], ◌∷◌, ◌++◌, Bool, true, false, not, ◌&&◌, mem, codes,
  same_codes_eq, arith,
}
use harnessie.Prelude.Values.{Fields, get}
use harnessie.Adversarial.Lint.{
  Text, Yaml, LintError, missing_decided, lint_record, frontmatter, sections, section_of, arb_meta,
  is_complete_arb, PositionMeta, earned, report_lint, lint_errors, status_errors, filled, is_one_of,
  no_errors, claim_if, error_if,
}

-- A record without a structural error, with status `arbitrated`, a decided date in its front matter, and
-- all of `decided_by`, `date` and `decision` in its Arbitration section.
pub record Arbitrated (yaml : Yaml) (text : Text) : Type 0 where
  pub faultless : (lint_record yaml text).errors ≡ []
  pub status : (lint_record yaml text).status ≡ codes "arbitrated"
  pub decided : filled yaml (get "decided" (frontmatter yaml text).0) ≡ true
  pub complete :
      is_complete_arb (arb_meta (section_of "Arbitration" (sections (frontmatter yaml text).1)))
      ≡ true

last_claim :
    (a b c : Bool)
    → mem "human-arbitrated" (
        claim_if a "independent-positions"
        ++ (claim_if b "dissent-preserved" ++ claim_if c "human-arbitrated"))
      ≡ true
    → c ≡ true
last_claim a b true h = refl
last_claim true true false h = h
last_claim true false false h = h
last_claim false true false h = h
last_claim false false false h = h

no_errors-nil : (es : List LintError) → no_errors es ≡ true → es ≡ []
no_errors-nil [] h = refl
no_errors-nil (e ∷ es) h = cc

is_one_of-single : (s : Text) (n : String) → is_one_of s (n ∷ []) ≡ true → s ≡ codes n
is_one_of-single s n h = same_codes_eq s (codes n) (ground (arith, h))

nil_of_append {ℓ} : {A : Type ℓ} (xs ys : List A) → xs ++ ys ≡ [] → (xs ≡ []) × (ys ≡ [])
nil_of_append [] ys h = (refl, h)
nil_of_append (x ∷ xs) ys h = cc

error_if-nil : (b : Bool) (e : LintError) → error_if b e ≡ [] → b ≡ false
error_if-nil true e h = cc
error_if-nil false e h = refl

true_of_not : (b : Bool) → (true && not b) ≡ false → b ≡ true
true_of_not b h = ground arith

and3 : (a b c : Bool) → (a && b && c) ≡ true → (a ≡ true) × (b ≡ true) × (c ≡ true)
and3 true true true h = (refl, refl, refl)
and3 true true false h = absurd (cc)
and3 true false c h = absurd (cc)
and3 false b c h = absurd (cc)

module _ (yaml : Yaml) where
  status_errors-nil :
      (fm : Fields) (status : Text)
      → status ≡ codes "arbitrated"
      → status_errors yaml fm status ≡ []
      → filled yaml (get "decided" fm) ≡ true
  unfolding status_errors
  status_errors-nil fm status e h = true_of_not _ (
      subst
        (λ s.
          (is_one_of s ("arbitrated" ∷ "superseded" ∷ []) && not (filled yaml (get "decided" fm)))
          ≡ false)
        e (error_if-nil _ missing_decided (nil_of_append _ _ h).1))

  lint_errors-status :
      (fm : Fields) (status : Text) (found : List (Text × Text)) (metas : List PositionMeta)
      (complete : Bool)
      → lint_errors yaml fm status found metas complete ≡ []
      → status_errors yaml fm status ≡ []
  unfolding lint_errors
  lint_errors-status fm status found metas complete h =
      (nil_of_append _ _ (nil_of_append _ _ h).1).0

  earned-human :
      (errors : List LintError) (status : Text) (found : List (Text × Text))
      (metas : List PositionMeta) (complete : Bool)
      → mem "human-arbitrated" (earned yaml errors status found metas complete) ≡ true
      → (status ≡ codes "arbitrated") × (complete ≡ true) × (errors ≡ [])
  unfolding earned
  earned-human errors status found metas complete h =
      let all_three = last_claim _ _ _ h in
      let (s, c, n) = and3 _ complete _ all_three in
      (is_one_of-single status "arbitrated" s, c, no_errors-nil errors n)

  -- The claim is only earned by a record that is arbitrated.
  pub lint_record-Arbitrated :
      (text : Text)
      → mem "human-arbitrated" (lint_record yaml text).claims ≡ true
      → Arbitrated yaml text
  unfolding lint_record report_lint
  lint_record-Arbitrated text h =
      let (status, complete, faultless) = earned-human _ _ _ _ _ h in
      record {
        faultless = faultless;
        status = status;
        decided =
            status_errors-nil (frontmatter yaml text).0 _ status
              (lint_errors-status _ _ _ _ _ faultless);
        complete = complete;
      }
