-- ===== src/Ingest/Status.antt =====
-- `publication_status` of ingestion_services.py: what publication still lacks.
use openfotos_platform.Prelude.{
  ℕ, ◌+◌, ◌*◌, Bool, true, false, not, ◌&&◌, none, some, List, [], ◌∷◌, ◌==◌, ◌=ᵗ◌, max, any, keep,
  length, if◌then◌else◌,
}
use openfotos_platform.States.{Variant}
use openfotos_platform.Models.{ContributionBatch, Asset, Db, FaceAnalysisState, is_set}
use openfotos_platform.Ingest.Rows.{
  is_verified, is_complete_batch, is_reserved_batch, is_original_of, sub_event_archived,
  is_pending_original,
}

-- An asset of a complete batch under an active sub-event, shown in the gallery, with a verified
-- original.
unfoldable pub is_included : Db → Asset → Bool
unfolding sub_event_archived
is_included db a =
    not (is_set a.gallery_excluded_at)
    && any
        (λ b.
          b.id == a.batch && is_complete_batch b.state && not (sub_event_archived b.sub_event db))
        db.batches
    && any (λ o. is_original_of a.id o && is_verified o.state) db.objects

unfoldable pub included_assets : Db → List Asset
unfolding is_included
included_assets db = keep (is_included db) db.assets

abbrev pub is_asset_of : List Asset → ℕ → Bool
is_asset_of assets id = any (λ a. a.id == id) assets

-- The variants of DERIVATIVE_VARIANTS.
abbrev pub is_derivative : Variant → Bool
is_derivative Variant.original = false
is_derivative _ = true

unfoldable pub verified_derivatives : Db → ℕ
unfolding included_assets
verified_derivatives db = length (
    keep
      (λ o.
        is_asset_of (included_assets db) o.asset
        && (is_derivative o.variant && is_verified o.state))
      db.objects)

abbrev pub is_terminal_face : FaceAnalysisState → Bool
is_terminal_face FaceAnalysisState.indexed = true
is_terminal_face FaceAnalysisState.no_usable_face = true
is_terminal_face _ = false

unfoldable pub terminal_faces : Db → ℕ
unfolding included_assets
terminal_faces db = length (
    keep
      (λ f.
        any (λ a. a.id == f.asset && f.source_sha256 =ᵗ a.sha256) (included_assets db)
        && (is_terminal_face f.state && f.model_id =ᵗ db.event.face_model_id))
      db.faces)

-- Photos that a reserved batch has not brought to an end, at least one for each batch.
unfoldable pub remaining_photos : Db → ContributionBatch → ℕ
remaining_photos db b = max (length (keep (is_pending_original b.id) db.objects)) 1

-- `setdefault(installation, 0)` and `+=`, in the order of the first batch of each workstation.
unfoldable pub add_photos : (installation photos : ℕ) → List (ℕ × ℕ) → List (ℕ × ℕ)
add_photos i n [] = (i, n) ∷ []
add_photos i n ((j, m) ∷ rest) =
    let later = (j, m) ∷ add_photos i n rest in if i == j then (j, m + n) ∷ rest else later

unfoldable pub count_in_flight : Db → List ContributionBatch → List (ℕ × ℕ) → List (ℕ × ℕ)
unfolding remaining_photos add_photos
count_in_flight db [] counts = counts
count_in_flight db (b ∷ bs) counts = count_in_flight db bs (
    if is_reserved_batch b.state
    then add_photos b.installation (remaining_photos db b) counts
    else counts)

pub record PublicationStatus : Type 0 where
  pub included_photo_count : ℕ
  pub expected_derivatives : ℕ
  pub verified_derivative_count : ℕ
  pub terminal_face_count : ℕ
  pub in_flight : List (ℕ × ℕ)
  pub ready : Bool

abbrev pub has_policy : Db → Bool
has_policy db = elim db.policy [ none ↦ false | some x ↦ true ]

abbrev pub has_active_sub_event : Db → Bool
has_active_sub_event db = any (λ r. not r.is_archived) db.sub_events

-- The missing counts of the source are the differences of two of these numbers, and are tested for
-- zero only.
unfoldable pub publication_status : Db → PublicationStatus
unfolding included_assets verified_derivatives terminal_faces count_in_flight
publication_status db =
    let included = length (included_assets db) in
    record {
      included_photo_count = included;
      expected_derivatives = included * 2;
      verified_derivative_count = verified_derivatives db;
      terminal_face_count = terminal_faces db;
      in_flight = count_in_flight db db.batches [];
      ready =
          not (included == 0)
          && included * 2 == verified_derivatives db
          && included == terminal_faces db
          && has_policy db
          && has_active_sub_event db;
    }
