-- ===== src/Scanner.antt =====
-- The discovery of files in apps/desktop/src/openfotos_desktop/ingestion/scanner.py: `_discover` and
-- `_walk_directory`. What the disk answers is a parameter; the walk has fuel, one unit for a directory.
pub mod Walk
pub mod Scan
pub mod Kept
pub mod Steady
pub mod Concluded
pub mod Frozen
pub mod NoAdditions
pub mod Relocate
pub mod Moved
pub mod Samples
pub mod Examples
use openfotos_platform.Prelude.{
  ℕ, zero, suc, Bool, true, false, not, ◌&&◌, ◌||◌, Option, none, some, List, [], ◌∷◌, ◌++◌, Text,
  if◌then◌else◌, sort_by, text_before, text_then_id,
}
use openfotos_platform.Checkpoint.{
  SelectionKind, ScanIssueReason, FileSnapshot, ValidationResult, SelectionRow,
}

pub data FileMode : Type 0 where
  regular directory other : FileMode

pub record Details : Type 0 where
  pub mode : FileMode
  pub snapshot : FileSnapshot

-- The disk during a scan. `none` is an OSError.
pub record Disk : Type 0 where
  -- `path.stat(follow_symlinks=False)` when a path is discovered, and after it was validated
  pub stat : Text → Option Details
  pub stat_after : Text → Option Details
  -- `path.is_symlink() or _is_junction(path)`
  pub is_linked : Text → Bool
  -- `path.is_symlink()`
  pub is_symlink : Text → Bool
  -- the paths of `os.scandir`
  pub scandir : Text → Option (List Text)
  -- `os.path.normcase(entry.name)`
  pub sort_key : Text → Text
  -- `path.relative_to(root)`, `Path(".")`, and `root / relative`
  pub relative_to : (root path : Text) → Text
  pub here : Text
  pub join : (root relative : Text) → Text
  -- `InventoryValidator.validate` and `sha256_file`
  pub validate : (path : Text) → (size_bytes : ℕ) → Option ValidationResult
  pub sha256_file : Text → Option Text

-- The selection of a candidate is its row.
pub record Candidate : Type 0 where
  pub selection : SelectionRow
  pub source_path : Text
  pub relative_path : Text
  pub snapshot : FileSnapshot
  pub linked : Bool
  pub is_regular : Bool

-- What the discovery meets, in order: a candidate, or an issue that blocks.
pub data Found : Type 0 where
  candidate : Candidate → Found
  issue : SelectionRow → ScanIssueReason → (path : Text) → Found

abbrev pub is_regular_mode : FileMode → Bool
is_regular_mode FileMode.regular = true
is_regular_mode _ = false

abbrev pub is_directory : FileMode → Bool
is_directory FileMode.directory = true
is_directory _ = false

-- The kind of the selection is that of the file.
abbrev pub has_kind : SelectionKind → FileMode → Bool
has_kind SelectionKind.file m = is_regular_mode m
has_kind SelectionKind.folder m = is_directory m

module _ (disk : Disk) where
  open disk use {stat, is_linked, scandir, sort_key, relative_to, here}

  abbrev pub linked_candidate : SelectionRow → (path relative : Text) → FileSnapshot → Candidate
  linked_candidate r path relative snapshot = record {
    selection = r;
    source_path = path;
    relative_path = relative;
    snapshot = snapshot;
    linked = true;
    is_regular = false;
  }

  abbrev pub file_candidate :
      SelectionRow → (path relative : Text) → FileSnapshot → (is_regular : Bool) → Candidate
  file_candidate r path relative snapshot is_regular = record {
    selection = r;
    source_path = path;
    relative_path = relative;
    snapshot = snapshot;
    linked = false;
    is_regular = is_regular;
  }

  -- The entries of a directory: what is found, and the directories below it, the last one first.
  unfoldable pub walk_entries :
      SelectionRow → List Text → List Found → List Text → List Found × List Text
  walk_entries r [] found below = (found, below)
  walk_entries r (path ∷ paths) found below = elim (stat path) [
    | none ↦
        walk_entries r paths (found ++ Found.issue r ScanIssueReason.file_unreadable path ∷ [])
          below
    | some details ↦
        let relative = relative_to r.source_path path in
        let below_too = is_directory details.mode && not (is_linked path) in
        let next =
          if is_linked path
          then linked_candidate r path relative details.snapshot
          else file_candidate r path relative details.snapshot (is_regular_mode details.mode) in
        walk_entries r paths (if below_too then found else found ++ Found.candidate next ∷ [])
          (if below_too then path ∷ below else below)
  ]

  -- `sorted(scan, key=..., reverse=True)`
  abbrev pub sorted_entries : List Text → List Text
  sorted_entries paths = sort_by (λ a b. not (text_before (sort_key a) (sort_key b))) paths

  -- `pending` is the stack of directories; `none` says that the fuel is spent.
  unfoldable pub walk_directory :
      (fuel : ℕ) → SelectionRow → (pending : List Text) → Option (List Found)
  unfolding walk_entries
  walk_directory fuel r [] = some []
  walk_directory zero r (top ∷ pending) = none
  walk_directory (suc fuel) r (top ∷ pending) = elim (scandir top) [
    | none ↦
        prefixed (Found.issue r ScanIssueReason.directory_unreadable top ∷ [])
          (walk_directory fuel r pending)
    | some paths ↦
        let (found, below) = walk_entries r (sorted_entries paths) [] pending in
        prefixed found (walk_directory fuel r below)
  ]
    where
      prefixed : List Found → Option (List Found) → Option (List Found)
      prefixed found none = none
      prefixed found (some rest) = some (found ++ rest)

  -- `_discover`
  unfoldable pub discover : (fuel : ℕ) → SelectionRow → Option (List Found)
  unfolding walk_directory
  discover fuel r = elim (stat r.source_path) [
    | none ↦ some (Found.issue r ScanIssueReason.selection_missing r.source_path ∷ [])
    | some details ↦
        if is_linked r.source_path
        then some (Found.candidate (linked_candidate r r.source_path here details.snapshot) ∷ [])
        else if not (has_kind r.kind details.mode)
        then some (Found.issue r ScanIssueReason.selection_type_changed r.source_path ∷ [])
        else elim r.kind [
          | SelectionKind.file ↦
              some
                (Found.candidate (file_candidate r r.source_path here details.snapshot true) ∷ [])
          | SelectionKind.folder ↦ walk_directory fuel r (r.source_path ∷ [])
        ]
  ]
