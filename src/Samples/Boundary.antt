-- ===== src/Samples/Boundary.antt =====
-- A text with one address, under a map that has the third address of a run.
use harnessie.Prelude.{
  ◌≡◌, refl, String, Option, some, [], ◌∷◌, ◌++◌, true, if◌then◌else◌, codes, same_codes,
}
use harnessie.Prelude.Values.{Value, str, obj, seq_of, done, element, end, field}
use harnessie.Boundary.{
  numbered, Mapping, Match, Patterns, same_key, strip, strip_spans, strip_span, replace_span,
  find_all, add_matches, add_match, group_or, last_first, counters_from, placeholder_of, put_value,
}
use harnessie.Boundary.OneToOne.{OneToOne, strip-OneToOne}
use harnessie.Approval.{Printing, PolicyFile, parsed}

abbrev address_at_start : Match
address_at_start = record {
  whole = record { start = 0; stop = 3; value = codes "a@b" };
  groups = [];
}

abbrev addresses : Patterns
addresses = record {
  kinds = "EMAIL" ∷ [];
  matches = λ kind text. if same_codes text (codes "a@b!") then address_at_start ∷ [] else [];
  secrets = λ text. [];
  show_number = λ n. (48 ∷ []);
}

abbrev third_address : Mapping
third_address = (numbered "EMAIL" 3, codes "c@d") ∷ []

goes_on :
    (strip addresses (codes "a@b!") third_address).mapping
    ≡ (numbered "EMAIL" 3, codes "c@d") ∷ (numbered "EMAIL" 4, codes "a@b") ∷ []
unfolding strip strip_spans strip_span replace_span find_all add_matches add_match group_or
    last_first counters_from placeholder_of put_value same_key
goes_on = refl

strip-OneToOne_example :
    ((new : Mapping) × ((strip addresses (codes "a@b!") third_address).mapping
        ≡ third_address ++ new))
    × OneToOne (strip addresses (codes "a@b!") third_address).mapping
strip-OneToOne_example = strip-OneToOne addresses (codes "a@b!") third_address (tt, tt)

abbrev grant_text : Value → String
grant_text (str s) = s
grant_text _ = "value"

abbrev grant_printing : Printing
grant_printing = record { stripped = grant_text; show_index = λ n. "n"; truthy = λ v. true }

abbrev mail_grant : Option PolicyFile
mail_grant = some (
    parsed
      (obj (field "allow" (seq_of (element (obj (field "tool" (str "send_mail") end)) done)) end)))
