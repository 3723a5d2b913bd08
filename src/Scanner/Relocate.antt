-- ===== src/Scanner/Relocate.antt =====
-- `relocate_selection`: a selection whose files moved. Accepted files must have the bytes they had.
use openfotos_platform.Prelude.{
  ℕ, Bool, false, not, ◌||◌, Option, none, some, List, [], ◌∷◌, Text, Result, ok, err, ◌>>=◌, ◌>>◌,
  raise_if, if◌then◌else◌, ◌=ᵗ◌,
}
use openfotos_platform.Checkpoint.{SelectionKind, FileSnapshot, ItemRow, Store, StoreError, Host}
use openfotos_platform.Checkpoint.Batches.{get_selection}
use openfotos_platform.Checkpoint.Inventory.{list_items, is_accepted, update_relocated_selection}
use openfotos_platform.Scanner.{Disk, Details, is_regular_mode, has_kind}

pub data RelocationError : Type 0 where
  linked_root wrong_kind : RelocationError
  incomplete type_changed unverifiable bytes_changed : (relative_path : Text) → RelocationError
  store_error : StoreError → RelocationError

-- An error of the store is not caught.
abbrev pub from_store {ℓ} : {A : Type ℓ} → Result StoreError A → Result RelocationError A
from_store (ok a) = ok a
from_store (err e) = err (RelocationError.store_error e)

abbrev pub is_digest : Option Text → Text → Bool
is_digest none t = false
is_digest (some s) t = t =ᵗ s

module _ (h : Host) (disk : Disk) where
  open disk use {stat, is_linked, is_symlink, join, sha256_file}

  abbrev pub exists_as : SelectionKind → Option Details → Bool
  exists_as kind none = false
  exists_as kind (some d) = has_kind kind d.mode

  -- `_verify_selection_kind`
  unfoldable pub verify_selection_kind :
      SelectionKind → (path : Text) → Result RelocationError (Unit {0})
  verify_selection_kind kind path =
      raise_if (is_linked path) RelocationError.linked_root
      >> raise_if (not (exists_as kind (stat path))) RelocationError.wrong_kind

  abbrev pub relocated_path : SelectionKind → (root : Text) → ItemRow → Text
  relocated_path SelectionKind.file root i = root
  relocated_path SelectionKind.folder root i = join root i.relative_path

  -- The bytes of an accepted file are those that were checked.
  abbrev pub verify_bytes : ItemRow → (path : Text) → Result RelocationError (Unit {0})
  verify_bytes i path = if not (is_accepted i) then ok tt else elim (sha256_file path) [
    | none ↦ err (RelocationError.unverifiable i.relative_path)
    | some digest ↦
        raise_if (not (is_digest i.result.sha256 digest))
          (RelocationError.bytes_changed i.relative_path)
  ]

  -- One file of the selection: where it is now, and what it looks like there.
  unfoldable pub relocate_one :
      SelectionKind
      → (root : Text) → ItemRow
      → Result RelocationError (ItemRow × Text × FileSnapshot)
  relocate_one kind root i =
      let path = relocated_path kind root i in
      elim (stat path) [
        | none ↦ err (RelocationError.incomplete i.relative_path)
        | some details ↦
            raise_if (not (is_regular_mode details.mode) || is_symlink path)
              (RelocationError.type_changed i.relative_path)
            >> (verify_bytes i path >> ok (i, path, details.snapshot))
      ]

  unfoldable pub relocate_all :
      SelectionKind
      → (root : Text) → List ItemRow
      → Result RelocationError (List (ItemRow × Text × FileSnapshot))
  unfolding relocate_one
  relocate_all kind root [] = ok []
  relocate_all kind root (i ∷ is) =
      relocate_one kind root i
      >>= (λ move. relocate_all kind root is >>= (λ moves. ok (move ∷ moves)))

  unfoldable pub relocate_selection :
      (selection : ℕ) → (root : Text) → Store → Result RelocationError Store
  unfolding verify_selection_kind relocate_all
  relocate_selection selection root s = do
    r ← from_store (get_selection selection s)
    verify_selection_kind r.kind root
    moves ← relocate_all r.kind root (list_items r.batch (some r.id) s)
    from_store (update_relocated_selection h selection root moves s)
