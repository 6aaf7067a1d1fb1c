-- ===== src/Samples/WriteSafety.antt =====
-- A group of two phases that write beside each other.
use harnessie.Prelude.{◌≡◌, ◌↔◌, refl, some, List, [], ◌∷◌, true, ok, all}
use harnessie.Prelude.Values.{str, seq_of, done, element}
use harnessie.WriteSafety.{
  Segment, Phase, is_declared, declared, parallel_write_conflicts, parse_text, parse_write_path,
  declare_all, declare_phase, conflicts_in, conflicts_with, overlap, contains, is_prefix,
  same_parts,
}
use harnessie.WriteSafety.Disjoint.{AllApart, parallel_write_conflicts-AllApart}

abbrev same_form : Segment → Segment
same_form s = s

abbrev docs_phase : Phase
docs_phase = record { name = "docs"; writes = some (seq_of (element (str "docs/") done)) }

abbrev code_phase : Phase
code_phase = record { name = "code"; writes = some (seq_of (element (str "docs.py") done)) }

abbrev two_phases : List Phase
two_phases = docs_phase ∷ code_phase ∷ []

beside : parallel_write_conflicts same_form two_phases ≡ ok []
unfolding parallel_write_conflicts declared declare_phase declare_all parse_write_path parse_text
    conflicts_in conflicts_with overlap contains is_prefix same_parts
beside = refl

parallel_write_conflicts-AllApart_example :
    (parallel_write_conflicts same_form two_phases ≡ ok []) ↔ (
      (all is_declared two_phases ≡ true)
      × ((ds : List _) × (declared two_phases ≡ ok ds) × AllApart same_form ds))
parallel_write_conflicts-AllApart_example =
    parallel_write_conflicts-AllApart same_form two_phases refl
