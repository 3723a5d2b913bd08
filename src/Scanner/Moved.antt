-- ===== src/Scanner/Moved.antt =====
-- What a relocation keeps of the files, and what it checked.
use openfotos_platform.Prelude.{
  ℕ, ◌≡◌, ◌∙◌, refl, some, List, [], ◌∷◌, Text, ok, map, map-update, >>=-eq-ok, arith, update, ◌==◌,
  Result-cases, inl, inr,
}
use openfotos_platform.Checkpoint.{FileSnapshot, ItemRow, Store, Host, ValidationResult}
use openfotos_platform.Checkpoint.Batches.{get_selection}
use openfotos_platform.Checkpoint.Inventory.{
  list_items, update_relocated_selection, relocate_items, relocated_item,
}
use openfotos_platform.Scanner.{Disk}
use openfotos_platform.Scanner.Relocate.{
  verify_selection_kind, relocate_all, relocate_selection, from_store,
}

-- What the server was told, or will be told, of a file.
abbrev pub identity : ItemRow → ℕ × ℕ × ValidationResult
identity i = (i.id, i.batch, i.result)

relocate_items-identity :
    (h : Host) (moves : List (ItemRow × Text × FileSnapshot)) (rows rows' : List ItemRow)
    → relocate_items h moves rows ≡ ok rows'
    → map identity rows' ≡ map identity rows
unfolding relocate_items
relocate_items-identity h [] rows rows' e = ground arith
relocate_items-identity h ((item, path, snapshot) ∷ moves) rows rows' e =
    let moved = update (λ i. i.id == item.id) (relocated_item h path snapshot) rows in
    let rest : relocate_items h moves moved ≡ ok rows' = ground arith in
    relocate_items-identity h moves moved rows' rest
    ∙ map-update identity (λ i. i.id == item.id) (relocated_item h path snapshot) (λ i. refl) rows

update_relocated_selection-identity :
    (h : Host) (selection : ℕ) (path : Text) (moves : List (ItemRow × Text × FileSnapshot))
    (s s' : Store)
    → update_relocated_selection h selection path moves s ≡ ok s'
    → map identity s'.items ≡ map identity s.items
unfolding update_relocated_selection
update_relocated_selection-identity h selection path moves s s' e =
    elim (Result-cases (relocate_items h moves s.items)) [
      | inl (rows, er) ↦
          (let same : s'.items ≡ rows = ground arith in
            rw same (relocate_items-identity h moves s.items rows er))
      | inr (c, er) ↦ absurd (ground arith)
    ]

-- A relocation that succeeds keeps the identity, the contribution and the validation of every file, in
-- their order.
pub relocate_selection-identity :
    (h : Host) (disk : Disk) (selection : ℕ) (root : Text) (s s' : Store)
    → relocate_selection h disk selection root s ≡ ok s'
    → map identity s'.items ≡ map identity s.items
unfolding relocate_selection
relocate_selection-identity h disk selection root s s' e =
    let (r, er, e1) = >>=-eq-ok (from_store (get_selection selection s)) _ e in
    let (u, eu, e2) = >>=-eq-ok (verify_selection_kind h disk r.kind root) _ e1 in
    let (moves, em, e3) =
      >>=-eq-ok (relocate_all h disk r.kind root (list_items r.batch (some r.id) s)) _ e2 in
    update_relocated_selection-identity h selection root moves s s' (ground arith)
