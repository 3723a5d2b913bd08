-- ===== src/Scanner/Samples.antt =====
-- A small folder and the store of a desktop, on which the examples of the scanner and of the checkpoint
-- run: one photo, in a contribution to one event.
use openfotos_platform.Prelude.{
  ℕ, Bool, true, false, Option, none, some, List, [], ◌∷◌, Text, ◌=ᵗ◌, if◌then◌else◌,
}
use openfotos_platform.Keys.{codes}
use openfotos_platform.Checkpoint.{
  BatchState, BatchRow, ItemRow, SelectionRow, EventCache, SubEventCache, Store, Host, FileSnapshot,
  ValidationResult, InventoryStatus, SelectionKind,
}
use openfotos_platform.Checkpoint.Events.{row_of_event}
use openfotos_platform.Checkpoint.Approval.{approved_row}
use openfotos_platform.Checkpoint.Pending.{pending_face, both_variants, pending_upload}
use openfotos_platform.Scanner.{Disk, Details, FileMode}

abbrev pub plain_host : Host
plain_host = record { strip = λ t. t; abspath = λ t. t; normcase = λ t. t; file_name = λ t. t }

abbrev pub hall : SubEventCache
hall = record { id = 5; name = codes "Hall"; position = 1 }

abbrev pub wedding : EventCache
wedding = record {
  id = 1;
  name = codes "Wedding";
  storage_limit_bytes = 1000;
  processing_profile_id = codes "p";
  face_model_id = codes "m";
  face_index_ready = false;
  server_url = codes "https";
  reserved_original_bytes = 0;
  verified_original_bytes = 0;
  intake_state = codes "open";
  intake_generation = 1;
  device_label = codes "Mac";
  sub_events = hall ∷ [];
  preview_policy = none;
}

abbrev pub nothing : Store
nothing = record {
  installation_id = 9;
  workstation_label = none;
  events = [];
  sub_events = [];
  batches = [];
  selections = [];
  items = [];
  scan_issues = [];
  uploads = [];
  derivatives = [];
  faces = [];
  derivative_caches = [];
}

abbrev pub folder_path : Text
folder_path = codes "d"

abbrev pub photo_path : Text
photo_path = codes "d/a"

abbrev pub photo_snapshot : FileSnapshot
photo_snapshot = record { size_bytes = 70; modified_ns = 3; changed_ns = 4 }

abbrev pub details_of : FileMode → Details
details_of mode = record { mode = mode; snapshot = photo_snapshot }

unfoldable pub plain_stat : Text → Option Details
unfolding ◌=ᵗ◌
plain_stat path =
    if path =ᵗ folder_path
    then some (details_of FileMode.directory)
    else if path =ᵗ photo_path
    then some (details_of FileMode.regular)
    else none

unfoldable pub plain_scandir : Text → Option (List Text)
unfolding ◌=ᵗ◌
plain_scandir path = if path =ᵗ folder_path then some (photo_path ∷ []) else none

abbrev pub accepted_photo : ValidationResult
accepted_photo = record {
  status = InventoryStatus.accepted;
  reason = none;
  content_type = some (codes "image/jpeg");
  sha256 = some (codes "abc");
  content_md5 = some (codes "def");
  width = some 4;
  height = some 3;
}

abbrev pub plain_disk : Disk
plain_disk = record {
  stat = plain_stat;
  stat_after = plain_stat;
  is_linked = λ path. false;
  is_symlink = λ path. false;
  scandir = plain_scandir;
  sort_key = λ path. path;
  relative_to = λ root path. codes "a";
  here = codes ".";
  join = λ root relative. photo_path;
  validate = λ path size. some accepted_photo;
  sha256_file = λ path. some (codes "abc");
}

abbrev pub never : ℕ → Bool
never n = false

abbrev pub fresh_item : ℕ → ℕ
fresh_item n = 30

abbrev pub cached : Store
cached = record nothing {
  events = row_of_event plain_host wedding ∷ [];
  sub_events = record { id = 5; event = 1; name = hall.name; position = 1; is_active = true } ∷ [];
}

abbrev pub draft_batch : BatchRow
draft_batch = record {
  id = 20;
  event = 1;
  installation_id = 9;
  sub_event = 5;
  state = BatchState.draft;
  label = codes "Ceremony";
  scan_generation = 0;
  frozen_at = none;
  approved_at = none;
  created_at = 100;
}

abbrev pub created : Store
created = record cached { batches = draft_batch ∷ [] }

abbrev pub folder_row : SelectionRow
folder_row = record {
  id = 40;
  batch = 20;
  kind = SelectionKind.folder;
  source_path = folder_path;
  normalized_path = folder_path;
  created_at = 101;
}

abbrev pub selected : Store
selected = record created { selections = folder_row ∷ [] }

abbrev pub photo_row : ItemRow
photo_row = record {
  id = 30;
  batch = 20;
  selection = 40;
  relative_path = codes "a";
  source_path = photo_path;
  normalized_path = photo_path;
  basename = photo_path;
  snapshot = photo_snapshot;
  result = accepted_photo;
  last_seen_generation = 1;
}

abbrev pub scanned_batch : BatchRow
scanned_batch = record draft_batch { state = BatchState.needs_review; scan_generation = 1 }

abbrev pub scanned : Store
scanned = record selected { batches = scanned_batch ∷ []; items = photo_row ∷ [] }

abbrev pub approved_store : Store
approved_store = record scanned { batches = approved_row 110 scanned_batch ∷ [] }

-- After a second scan that met no change.
abbrev pub rescanned_store : Store
rescanned_store = record scanned {
  batches = record (approved_row 110 scanned_batch) { scan_generation = 2 } ∷ [];
  items = record photo_row { last_seen_generation = 2 } ∷ [];
}

abbrev pub reserved_batch : BatchRow
reserved_batch = record (approved_row 110 scanned_batch) { state = BatchState.reserved }

abbrev pub reserved_one : Store
reserved_one = record approved_store {
  batches = reserved_batch ∷ [];
  uploads = pending_upload photo_row ∷ [];
  derivatives = both_variants (photo_row ∷ []);
  faces = pending_face photo_row ∷ [];
}
