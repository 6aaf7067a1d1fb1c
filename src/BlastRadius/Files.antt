-- ===== src/BlastRadius/Files.antt =====
-- `_snapshot` and `_restore` of harness/blast_radius.py, over the calls of the operating system.
use harnessie.Prelude.{
  ℕ, suc, String, List, [], ◌∷◌, Bool, true, false, if◌then◌else◌, ◌==◌, leb, str_eq, codes, insert,
  Result, ok, raise,
}
use harnessie.BlastRadius.Meters.{Entry, Snapshot}

pub data FileKind : Type 0 where
  symlink directory regular special : FileKind

-- The exceptions: an UnsupportedWorkspaceEntry, or another, such as an OSError.
pub data Fault : Type 0 where
  unsupported_entry : (path : String) → Fault
  other_error : String → Fault

abbrev pub Effect : Type 0 → Type 0
Effect W = W → Result String Unit × W

-- The calls on paths below the workspace, which is the empty path; an OSError is a text. `walk` gives what
-- `os.walk` does without following links: for each directory the paths of its directories, and of all else.
-- `mkdir` makes the parents, and accepts a directory that exists.
pub record FileSystem (W : Type 0) : Type 0 where
  pub walk : W → List (List String × List String)
  pub lstat : String → W → Result String (FileKind × ℕ)
  pub readlink : String → W → Result String (List ℕ)
  pub read_bytes : String → W → Result String (List ℕ)
  pub iterdir : W → Result String (List String)
  pub parent : String → String
  pub mkdir : String → Effect W
  pub rmtree : String → Effect W
  pub unlink : String → Effect W
  pub chmod : String → ℕ → Effect W
  pub write_bytes : String → List ℕ → Effect W
  pub make_symlink : List ℕ → String → Effect W

abbrev then_effect : {W : Type 0} → Result String Unit × W → Effect W → Result String Unit × W
then_effect (raise e, w) next = (raise e, w)
then_effect (ok u, w) next = next w

-- `rel.count("/")`
abbrev slashes : List ℕ → ℕ
slashes [] = 0
slashes (c ∷ cs) = let more = slashes cs in if c == 47 then suc more else more

abbrev put_by_depth : String × ℕ → List (String × ℕ) → List (String × ℕ)
put_by_depth d [] = d ∷ []
put_by_depth d (e ∷ es) =
    let later = put_by_depth d es in
    if leb (slashes (codes d.0)) (slashes (codes e.0)) then d ∷ e ∷ es else e ∷ later

-- `sorted(directories.items(), key=depth)`, which keeps the order of equal depths.
unfoldable pub by_depth : List (String × ℕ) → List (String × ℕ)
by_depth [] = []
by_depth (d ∷ ds) = put_by_depth d (by_depth ds)

module _ {W : Type 0} (files : FileSystem W) where
  open files use {walk, lstat, readlink, read_bytes, iterdir}

  abbrev add_entry : String → String → ℕ → Result String (List ℕ) → Snapshot → Result Fault Snapshot
  add_entry rel kind mode (raise e) before = raise (other_error e)
  add_entry rel kind mode (ok content) before = ok (record before {
    entries = insert rel (record { kind = kind; content = content; mode = mode }) before.entries;
  })

  -- An entry of `dirnames`.
  unfoldable pub snapshot_directory :
      String → Result String (FileKind × ℕ) → W → Snapshot → Result Fault Snapshot
  snapshot_directory rel (raise e) w before = raise (other_error e)
  snapshot_directory rel (ok (symlink, mode)) w before =
      add_entry rel "symlink" mode (readlink rel w) before
  snapshot_directory rel (ok (directory, mode)) w before =
      ok (record before { directories = insert rel mode before.directories })
  snapshot_directory rel (ok (_, mode)) w before = raise (unsupported_entry rel)

  -- An entry of `filenames`.
  unfoldable pub snapshot_file :
      String → Result String (FileKind × ℕ) → W → Snapshot → Result Fault Snapshot
  snapshot_file rel (raise e) w before = raise (other_error e)
  snapshot_file rel (ok (regular, mode)) w before =
      add_entry rel "file" mode (read_bytes rel w) before
  snapshot_file rel (ok (symlink, mode)) w before =
      add_entry rel "symlink" mode (readlink rel w) before
  snapshot_file rel (ok (_, mode)) w before = raise (unsupported_entry rel)

  abbrev add_each :
      (String → W → Snapshot → Result Fault Snapshot)
      → List String
      → W
      → Result Fault Snapshot
      → Result Fault Snapshot
  add_each add rels w (raise e) = raise e
  add_each add [] w (ok before) = ok before
  add_each add (rel ∷ rels) w (ok before) = add_each add rels w (add rel w before)

  unfoldable pub snapshot_walk :
      List (List String × List String) → W → Result Fault Snapshot → Result Fault Snapshot
  snapshot_walk [] w before = before
  snapshot_walk ((dirnames, filenames) ∷ steps) w before = snapshot_walk steps w (
      add_each (λ rel w' s. snapshot_file rel (lstat rel w') w' s) filenames w
        (add_each (λ rel w' s. snapshot_directory rel (lstat rel w') w' s) dirnames w before))

  abbrev snapshot_made : Result String Unit × W → Result Fault Snapshot × W
  snapshot_made (raise e, w) = (raise (other_error e), w)
  snapshot_made (ok u, w) =
      (snapshot_walk (walk w) w (ok (record { entries = []; directories = [] })), w)

  -- `_snapshot`
  unfoldable pub snapshot : W → Result Fault Snapshot × W
  snapshot w = snapshot_made (files.mkdir "" w)

  abbrev remove_child : String → Result String (FileKind × ℕ) → Effect W
  remove_child child (raise e) w = (raise e, w)
  remove_child child (ok (directory, mode)) w = files.rmtree child w
  remove_child child (ok (_, mode)) w = files.unlink child w

  unfoldable pub remove_children : List String → Effect W
  remove_children [] w = (ok tt, w)
  remove_children (child ∷ children) w =
      then_effect (remove_child child (lstat child w) w) (λ w'. remove_children children w')

  unfoldable pub make_directories : List (String × ℕ) → Effect W
  make_directories [] w = (ok tt, w)
  make_directories ((rel, mode) ∷ more) w =
      then_effect (files.mkdir rel w)
        (λ w'. then_effect (files.chmod rel mode w') (λ w''. make_directories more w''))

  abbrev write_entry : String → Entry → Bool → Effect W
  write_entry rel entry true w =
      then_effect (files.write_bytes rel entry.content w) (λ w'. files.chmod rel entry.mode w')
  write_entry rel entry false w = files.make_symlink entry.content rel w

  unfoldable pub write_entries : List (String × Entry) → Effect W
  write_entries [] w = (ok tt, w)
  write_entries ((rel, entry) ∷ more) w = then_effect (files.mkdir (files.parent rel) w) (λ w'.
      then_effect (write_entry rel entry (str_eq entry.kind "file") w')
        (λ w''. write_entries more w''))

  abbrev restore_children : Snapshot → Result String (List String) → Effect W
  restore_children before (raise e) w = (raise e, w)
  restore_children before (ok children) w = then_effect (remove_children children w) (λ w'.
      then_effect (make_directories (by_depth before.directories) w')
        (λ w''. write_entries before.entries w''))

  -- `_restore`; the first OSError leaves the workspace as it then is.
  unfoldable pub restore : Snapshot → Effect W
  restore before w = then_effect (files.mkdir "" w) (λ w'. restore_children before (iterdir w') w')
