-- ===== src/Samples/BlastRadius.antt =====
-- A workspace of one file, and operations that write it.
use harnessie.Prelude.{
  str_eq, not, keep, lookup, raise, insert, Option, Result, names_of, ℕ, ◌≡◌, refl, String, none,
  some, List, [], ◌∷◌, ok,
}
use harnessie.BlastRadius.{
  total_written, add_all, same_entry, changed_paths, delta, by_depth, write_entries,
  make_directories, remove_children, snapshot_file, snapshot_walk, restore, snapshot,
  check_ceilings, rolled_back, settle_usage, charge_paths, measure_after, after_action,
  measure_before, BlastRadiusLimits, FileSystem, Fault, regular, Metered, apply, breach, over,
  first_of, run_from_events, phase_from_events,
}
use harnessie.BlastRadius.Resume.{Replays, apply-Replays}
use harnessie.BlastRadius.Ceilings.{Metes, apply-Metes}

-- A workspace without directories: its files, with their bytes.
abbrev Disk : Type 0
Disk = List (String × List ℕ)

abbrev bytes_of : Option (List ℕ) → Result String (List ℕ)
bytes_of none = raise "not found"
bytes_of (some bytes) = ok bytes

abbrev files : FileSystem Disk
files = record {
  walk = λ w. ([], names_of w) ∷ [];
  lstat = λ rel w. ok (regular, 420);
  readlink = λ rel w. raise "not a link";
  read_bytes = λ rel w. bytes_of (lookup rel w);
  iterdir = λ w. ok (names_of w);
  parent = λ rel. "";
  mkdir = λ rel w. (ok tt, w);
  rmtree = λ rel w. (raise "not a directory", w);
  unlink = λ rel w. (ok tt, keep (λ entry. not (str_eq entry.0 rel)) w);
  chmod = λ rel mode w. (ok tt, w);
  write_bytes = λ rel bytes w. (ok tt, insert rel bytes w);
  make_symlink = λ target rel w. (raise "no links", w);
}

abbrev holding : List ℕ → Disk
holding bytes = ("out.txt", bytes) ∷ []

abbrev limits : BlastRadiusLimits
limits = record { max_files_touched = some 1; max_edits_applied = none; max_bytes_written = some 2 }

abbrev metered : Metered Disk
metered = record {
  meter = record {
    phase = "build";
    namespace = "target";
    limits = limits;
    touched = [];
    edits = 0;
    bytes_written = 0;
  };
  run = record { limits = limits; touched = []; edits = 0; bytes_written = 0 };
  events = [];
  world = holding (1 ∷ []);
}

nothing_spent : breach limits 0 0 0 ≡ none
unfolding breach over first_of
nothing_spent = refl

abbrev write : List ℕ → Disk → Result Fault String × Disk
write bytes w = (ok "done", insert "out.txt" bytes w)

too_much_is_undone :
    (apply files "write" (write (1 ∷ 2 ∷ 3 ∷ [])) metered).1.world ≡ holding (1 ∷ [])
unfolding apply measure_before after_action measure_after charge_paths settle_usage rolled_back
    check_ceilings snapshot restore snapshot_walk snapshot_file remove_children make_directories
    write_entries by_depth delta breach over first_of changed_paths same_entry add_all total_written
too_much_is_undone = refl

apply-Metes_example :
    Metes String files metered (apply files "write" (write (1 ∷ 2 ∷ 3 ∷ [])) metered)
apply-Metes_example =
    apply-Metes String files "write" (write (1 ∷ 2 ∷ 3 ∷ [])) metered nothing_spent nothing_spent

fresh : Replays metered.run metered.meter metered
unfolding run_from_events phase_from_events
fresh = record { run_again = refl; phase_again = refl }

apply-Replays_example :
    Replays metered.run metered.meter
      (apply {A = String} files "write" (write (1 ∷ 2 ∷ [])) metered).1
apply-Replays_example =
    apply-Replays String files metered.run metered.meter "write" (write (1 ∷ 2 ∷ [])) metered fresh
