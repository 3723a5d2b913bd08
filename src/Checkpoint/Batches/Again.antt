-- ===== src/Checkpoint/Batches/Again.antt =====
-- Selecting a path twice.
use openfotos_platform.Prelude.{ℕ, ◌≡◌, Text, ok, arith, find-append, =ᵗ_refl, ==_refl}
use openfotos_platform.Checkpoint.{SelectionKind, Store, Host, normalize_path}
use openfotos_platform.Checkpoint.Batches.{add_selection, get_batch, is_selection_of}

-- A path that was added is there: adding it again (under any spelling with the same normalized path, and
-- as any kind) answers the same id and changes nothing.
pub add_selection-again :
    (h : Host) (now fresh later other batch : ℕ) (path spelling : Text) (kind kind' : SelectionKind)
    (id : ℕ) (s s' : Store)
    → normalize_path h spelling ≡ normalize_path h path
    → add_selection h now fresh batch path kind s ≡ ok (id, s')
    → add_selection h later other batch spelling kind' s' ≡ ok (id, s')
unfolding add_selection get_batch
add_selection-again h now fresh later other batch path spelling kind kind' id s s' same e =
    rw same (
      ground (
        arith,
        find-append (is_selection_of batch (normalize_path h path)) s.selections (record {
          id = fresh;
          batch = batch;
          kind = kind;
          source_path = h.abspath path;
          normalized_path = normalize_path h path;
          created_at = now;
        }),
        =ᵗ_refl (normalize_path h path),
        ==_refl batch,
      ))
