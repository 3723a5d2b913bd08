-- ===== src/Scanner/Examples.antt =====
-- A folder with one photo is scanned, approved and scanned again, and the witnesses of the scanner's
-- theorems.
use openfotos_platform.Prelude.{
  ◌≤◌, ◌<◌, ◌≡◌, ◌≢◌, refl, true, none, some, [], ◌∷◌, ok, Text, total, arith, Bool-cases, inl, inr,
  map, any, find, keep, update, sort_by, insert_by, text_before, ◌=ᵗ◌, if◌then◌else◌,
}
use openfotos_platform.Keys.{codes}
use openfotos_platform.Checkpoint.{BatchRow, Store}
use openfotos_platform.Checkpoint.Batches.{
  get_batch, is_frozen, start_scan, set_batch_state, list_selections, get_selection,
}
use openfotos_platform.Checkpoint.Inventory.{
  upsert_item, get_item_by_path, touch_item, add_scan_issue, reconcile_unseen, list_items,
  relocate_items, update_relocated_selection,
}
use openfotos_platform.Checkpoint.Approval.{
  approved_row, summary, summary_of_batch, ScanCounts, ScanSummary,
}
use openfotos_platform.Scanner.{FileMode, Disk, discover, walk_directory, walk_entries}
use openfotos_platform.Scanner.Scan.{scan, visit, visit_new, visit_all, visit_selections, conclude}
use openfotos_platform.Scanner.Relocate.{
  relocate_selection, relocate_one, relocate_all, verify_selection_kind,
}
use openfotos_platform.Scanner.Samples.{
  details_of, photo_row, plain_host, plain_disk, plain_stat, plain_scandir, fresh_item, never,
  scanned, approved_store, rescanned_store, selected, scanned_batch, folder_path, folder_row,
}
use openfotos_platform.Scanner.Walk.{walk_directory-ends, weight, listed}
use openfotos_platform.Scanner.Frozen.{scan-approves}
use openfotos_platform.Scanner.Concluded.{IsClear}
use openfotos_platform.Scanner.Steady.{known_files}
use openfotos_platform.Scanner.NoAdditions.{scan-item_ids, item_ids}
use openfotos_platform.Scanner.Moved.{relocate_selection-identity, identity}

-- The counts of a scan that validates one file, and of one that knows it.
abbrev first_counts : ScanCounts
first_counts = record { changed_count = 0; validated_count = 1; reused_count = 0 }

abbrev second_counts : ScanCounts
second_counts = record { changed_count = 0; validated_count = 0; reused_count = 1 }

abbrev first_summary : ScanSummary
first_summary = summary_of_batch scanned_batch first_counts scanned

first_scan : scan plain_host plain_disk fresh_item never 1 20 selected ≡ (ok first_summary, scanned)
unfolding scan start_scan get_batch set_batch_state list_selections upsert_item get_item_by_path
    touch_item add_scan_issue reconcile_unseen summary discover walk_directory walk_entries visit
    visit_new visit_all visit_selections conclude any find keep update sort_by insert_by text_before
    ◌=ᵗ◌ total plain_stat plain_scandir
first_scan = refl

abbrev approved_batch : BatchRow
approved_batch = approved_row 110 scanned_batch

abbrev second_summary : ScanSummary
second_summary =
    summary_of_batch (record approved_batch { scan_generation = 2 }) second_counts rescanned_store

second_scan :
    scan plain_host plain_disk fresh_item never 1 20 approved_store
    ≡ (ok second_summary, rescanned_store)
unfolding scan start_scan get_batch set_batch_state list_selections upsert_item get_item_by_path
    touch_item add_scan_issue reconcile_unseen summary discover walk_directory walk_entries visit
    visit_new visit_all visit_selections conclude any find keep update sort_by insert_by text_before
    ◌=ᵗ◌ total plain_stat plain_scandir
second_scan = refl

approved_known : get_batch 20 approved_store ≡ ok approved_batch
unfolding get_batch find
approved_known = refl

-- A tree of one folder.
one_folder :
    (d : Text)
    → total (weight plain_disk (λ path. 1)) (listed plain_disk (λ path. 1) (plain_scandir d)) < 1
unfolding total plain_scandir plain_stat ◌=ᵗ◌
one_folder d = elim (Bool-cases (d =ᵗ folder_path)) [
  | inl e ↦ rw e (ground arith)
  | inr e ↦ rw e (ground arith)
]

one_fits : total (λ path. 1) (folder_path ∷ []) ≤ 1
unfolding total
one_fits = ground arith

walk_directory-ends_example : walk_directory plain_disk 1 folder_row (folder_path ∷ []) ≢ none
walk_directory-ends_example =
    walk_directory-ends plain_disk (λ path. 1) one_folder 1 folder_row (folder_path ∷ []) one_fits

scan-approves_example :
    (is_frozen approved_batch ≡ true)
    × (known_files rescanned_store ≡ known_files approved_store)
    × IsClear approved_batch rescanned_store
scan-approves_example =
    scan-approves plain_host plain_disk fresh_item never 1 20 approved_store rescanned_store
      approved_batch second_summary approved_known second_scan refl

scan-item_ids_example :
    item_ids (scan plain_host plain_disk fresh_item never 1 20 approved_store).1
    ≡ item_ids approved_store
scan-item_ids_example =
    scan-item_ids plain_host plain_disk fresh_item never 1 20 approved_store approved_batch
      approved_known refl

-- The folder under another name.
abbrev moved_disk : Disk
moved_disk = record plain_disk {
  stat = λ path.
      if path =ᵗ codes "e"
      then some (details_of FileMode.directory)
      else some (details_of FileMode.regular);
  join = λ root relative. codes "e/a";
}

abbrev moved_store : Store
moved_store = record approved_store {
  selections = record folder_row { source_path = codes "e"; normalized_path = codes "e" } ∷ [];
  items =
      record photo_row {
        source_path = codes "e/a";
        normalized_path = codes "e/a";
        basename = codes "e/a";
      }
      ∷ [];
}

relocation : relocate_selection plain_host moved_disk 40 (codes "e") approved_store ≡ ok moved_store
unfolding relocate_selection get_selection verify_selection_kind relocate_all relocate_one
    list_items update_relocated_selection relocate_items any find keep update sort_by insert_by
    text_before ◌=ᵗ◌
relocation = refl

relocate_selection-identity_example :
    map identity moved_store.items ≡ map identity approved_store.items
relocate_selection-identity_example =
    relocate_selection-identity plain_host moved_disk 40 (codes "e") approved_store moved_store
      relocation
