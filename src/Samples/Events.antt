-- ===== src/Samples/Events.antt =====
-- Two events, over a small JSON codec and a hash that serve these two.
use harnessie.Prelude.{
  ℕ, ◌+◌, ◌≡◌, refl, String, Option, some, none, List, [], ◌∷◌, true, false, ◌==◌, if◌then◌else◌,
  pos,
}
use harnessie.Prelude.Values.{Value, obj, int, str, float, field, end, get}
use harnessie.Events.{
  Wire, Emission, event_of, reopen, emit, emit_all, verify_chain, verify_chain_lines,
}
use harnessie.Events.Chain.{AllReadable, verify_chain-emit_all, reopen-emit_all, new_log-IsHonest}
use harnessie.Events.Tamper.{tamper_evident}
use harnessie.Events.Separators.{separator_breaks_chain}

abbrev started : Emission
started = record { ts = "1.5"; kind = "workflow_start"; payload = field "phase" (str "plan") end }

abbrev finished : Emission
finished = record { ts = "2.5"; kind = "workflow_done"; payload = end }

abbrev first : Value
first = obj (
    field "ts" (float "1.5") (
      field "seq" (int (pos 1)) (
        field "prev" (str "genesis")
          (field "kind" (str "workflow_start") (field "phase" (str "plan") end)))))

abbrev second : Value
second = obj (
    field "ts" (float "2.5") (
      field "seq" (int (pos 2))
        (field "prev" (str "h66") (field "kind" (str "workflow_done") end))))

abbrev number_of : Option Value → ℕ
number_of (some (int (pos n))) = n
number_of _ = 0

abbrev dumps : Value → List ℕ
dumps (obj d) = (65 + number_of (get "seq" d)) ∷ []
dumps _ = 64 ∷ []

abbrev loads : List ℕ → Option Value
loads (c ∷ []) = if c == 66 then some first else if c == 67 then some second else none
loads _ = none

abbrev line_hash : List ℕ → String
line_hash (c ∷ []) = if c == 66 then "h66" else "h67"
line_hash _ = "h"

abbrev wire : Wire
wire = record { dumps = dumps; loads = loads; line_hash = line_hash }

abbrev both : List Emission
both = started ∷ finished ∷ []

both_readable : AllReadable wire (reopen wire none) both
unfolding reopen emit event_of
both_readable = (
  record {
    line = record { one = refl; shown = refl };
    back = refl;
    free_prev = refl;
    free_seq = refl;
  },
  (
    record {
      line = record { one = refl; shown = refl };
      back = refl;
      free_prev = refl;
      free_seq = refl;
    },
    tt,
  ),
)

verify_chain-emit_all_example :
    verify_chain wire (some (emit_all wire (reopen wire none) both).file)
    ≡ record { is_ok = true; length_of = 2; breaks = [] }
verify_chain-emit_all_example = verify_chain-emit_all wire both both_readable

reopen-emit_all_example :
    reopen wire (some (emit_all wire (reopen wire none) both).file)
    ≡ emit_all wire (reopen wire none) both
reopen-emit_all_example = reopen-emit_all wire both both_readable

abbrev two_lines : List (List ℕ)
two_lines = (66 ∷ []) ∷ (67 ∷ []) ∷ []

two_lines_verify : (verify_chain_lines wire two_lines).is_ok ≡ true
unfolding verify_chain_lines
two_lines_verify = refl

tamper_evident_example : two_lines ≡ two_lines
tamper_evident_example =
    tamper_evident wire two_lines two_lines (67 ∷ []) two_lines_verify two_lines_verify refl refl
      ((λ _. refl), ((λ _. refl), tt))

-- A codec that writes a U+2028 in the middle of the line.
abbrev split_wire : Wire
split_wire = record { dumps = λ _. 65 ∷ 0x2028 ∷ 66 ∷ []; loads = λ _. none; line_hash = line_hash }

separator_breaks_chain_example :
    (verify_chain split_wire (some (emit split_wire (reopen split_wire none) started).file)).is_ok
    ≡ false
separator_breaks_chain_example =
    separator_breaks_chain split_wire [] (reopen split_wire none) started (65 ∷ []) (66 ∷ []) 0x2028
      (new_log-IsHonest split_wire) refl refl refl refl refl
