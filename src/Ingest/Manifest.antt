-- ===== src/Ingest/Manifest.antt =====
-- `_aggregate_manifest_document` of ingestion_services.py, for the batches that a test selects.
use openfotos_platform.Prelude.{
  ℕ, Bool, ◌&&◌, none, some, List, [], ◌∷◌, map, Text, ◌==◌, leb, find, keep, total, any,
  if◌then◌else◌,
}
use openfotos_platform.Models.{
  Event, ContributionBatch, AssetObject, Db, ManifestContribution, ManifestAsset, ManifestSummary,
  ManifestDocument,
}
use openfotos_platform.Ingest.Rows.{is_original, is_verified, is_excluded}

-- The name of a row of the event's sub-events (a foreign key).
unfoldable pub sub_event_name : ℕ → Db → Text
sub_event_name sub db = elim (find (λ r. r.id == sub) db.sub_events) [ none ↦ [] | some r ↦ r.name ]

unfoldable pub filename : ℕ → Db → Text
filename asset db = elim (find (λ a. a.id == asset) db.assets) [
  | none ↦ []
  | some a ↦ a.original_filename
]

abbrev pub manifest_contribution : Db → ContributionBatch → ManifestContribution
manifest_contribution db b = record {
  batch_id = b.id;
  installation_id = b.installation;
  sub_event_id = b.sub_event;
  sub_event_name = sub_event_name b.sub_event db;
  generation = b.intake_generation;
  state = b.state;
  asset_count = b.declared_asset_count;
  original_bytes = b.declared_original_bytes;
  manifest_sha256 = b.manifest_sha256;
}

-- The width, height and digest are those of the asset, which its original repeats.
abbrev pub manifest_asset : Db → AssetObject → ManifestAsset
manifest_asset db o = record {
  asset_id = o.asset;
  batch_id = o.batch;
  filename = filename o.asset db;
  content_type = o.content_type;
  width = o.width;
  height = o.height;
  original_bytes = o.expected_bytes;
  sha256 = o.sha256;
  content_md5 = o.content_md5;
  object_key = o.object_key;
  state = o.state;
  excluded_reason = o.excluded_reason;
}

-- `order_by("asset_id")`
unfoldable pub insert_by_asset : AssetObject → List AssetObject → List AssetObject
insert_by_asset o [] = o ∷ []
insert_by_asset o (q ∷ qs) =
    let rest = q ∷ insert_by_asset o qs in if leb o.asset q.asset then o ∷ q ∷ qs else rest

unfoldable pub sort_by_asset : List AssetObject → List AssetObject
unfolding insert_by_asset
sort_by_asset [] = []
sort_by_asset (o ∷ os) = insert_by_asset o (sort_by_asset os)

-- The originals of the selected batches.
unfoldable pub manifest_objects : (ContributionBatch → Bool) → Db → List AssetObject
unfolding sort_by_asset
manifest_objects selected db = sort_by_asset (
    keep (λ o. is_original o.variant && any (λ b. b.id == o.batch && selected b) db.batches)
      db.objects)

abbrev pub summary_of : List AssetObject → ManifestSummary
summary_of objects = record {
  verified_asset_count = total (λ o. if is_verified o.state then 1 else 0) objects;
  verified_original_bytes =
      total (λ o. if is_verified o.state then o.expected_bytes else 0) objects;
  excluded_asset_count = total (λ o. if is_excluded o.state then 1 else 0) objects;
}

unfoldable pub aggregate_manifest_document :
    (ContributionBatch → Bool) → Event → Db → ManifestDocument
unfolding manifest_objects
aggregate_manifest_document selected event db =
    let objects = manifest_objects selected db in
    record {
      event_id = event.id;
      generation = event.intake_generation;
      created_at = event.updated_at;
      processing_profile_id = event.processing_profile_id;
      summary = summary_of objects;
      contributions = map (manifest_contribution db) (keep selected db.batches);
      assets = map (manifest_asset db) objects;
    }
