-- ===== src/Derivatives/Complete.antt =====
-- When a gallery is complete, said of the rows themselves.
use openfotos_platform.Derivatives.Readiness.{is_complete, refresh-answers}
use openfotos_platform.Prelude.{
  ap, ℕ, ◌*◌, ◌≡◌, ◌∙◌, refl, Bool, true, false, not, ◌&&◌, none, some, ok, ◌==◌, any, any_ext,
  keep, find, length, arith, if◌then◌else◌, inl, inr, Option-cases,
}
use openfotos_platform.States.{EventState, Variant, is_committed}
use openfotos_platform.Lifecycle.{state_for_derivative_readiness}
use openfotos_platform.Models.{Asset, AssetObject, Db, is_set}
use openfotos_platform.Ingest.Rows.{is_original_of, is_verified, sub_event_archived}
use openfotos_platform.Ingest.Publish.{current_manifest}
use openfotos_platform.Ingest.Counters.{CountersExact}
use openfotos_platform.Derivatives.{
  manifest_is_current, is_shown, shown_assets, verified_pairs, refresh_derivative_readiness,
}
use openfotos_platform.Derivatives.Pairs.{
  has_original, has_preview, has_thumbnail, are_distinct_objects, are_distinct_assets,
  lacks_derivative, count_all, keep-distinct, any-kept, keep_nothing, keep_ext,
}

-- A photo that the gallery shows: it is not taken out of it, its sub-event is not archived, and its original
-- is verified.
abbrev pub is_public : Db → Asset → Bool
is_public db a =
    not (is_set a.gallery_excluded_at)
    && (any
          (λ b.
            b.id == a.batch && not (any (λ r. r.id == b.sub_event && r.is_archived) db.sub_events))
          db.batches
        && has_original db.objects a)

-- The event points to a committed manifest of its generation.
abbrev pub is_manifest_committed : Db → Bool
is_manifest_committed db = elim db.event.current_ingestion_manifest [
  | none ↦ false
  | some g ↦ elim (find (λ m. m.generation == g) db.manifests) [
    | none ↦ false
    | some m ↦ is_committed m.state && m.generation == db.event.intake_generation
  ]
]

-- The gallery shows a photo.
abbrev pub shows_photo : Db → Bool
shows_photo db = any (is_public db) db.assets

-- Each photo that it shows has a verified preview and a verified thumbnail.
abbrev pub has_derivatives : Db → Bool
has_derivatives db = not (
    any (λ a. is_public db a && not (has_preview db.objects a && has_thumbnail db.objects a))
      db.assets)

abbrev pub is_gallery_complete : Db → Bool
is_gallery_complete db = is_manifest_committed db && (shows_photo db && has_derivatives db)

original_agrees :
    (a : Asset) (o : AssetObject)
    → (is_original_of a.id o && is_verified o.state) ≡ (
        o.asset == a.id
        && (elim o.variant [ Variant.original ↦ true | _ ↦ false ] && is_verified o.state))
original_agrees a o = elim o.variant [
  | Variant.original ↦ ground arith
  | Variant.preview ↦ ground arith
  | Variant.thumbnail ↦ ground arith
]

shown-is_public : (db : Db) (a : Asset) → is_shown db a ≡ is_public db a
unfolding is_shown sub_event_archived
shown-is_public db a =
    let originals =
      any_ext (λ o. is_original_of a.id o && is_verified o.state) _ (original_agrees a)
        db.objects in
    ground (arith, originals)

manifest_agrees : (db : Db) → manifest_is_current db ≡ is_manifest_committed db
unfolding manifest_is_current current_manifest
manifest_agrees db = elim (Option-cases db.event.current_ingestion_manifest) [
  | inl e ↦ rw e refl
  | inr (g, e) ↦ rw e refl
]

module _ (db : Db) (assets : are_distinct_assets db.assets ≡ true)
    (objects : are_distinct_objects db.objects ≡ true) where
  shown_agrees : shown_assets db ≡ keep (is_public db) db.assets
  unfolding shown_assets
  shown_agrees = keep_ext (is_shown db) (is_public db) (shown-is_public db) db.assets

  shows_agrees : (length (shown_assets db) == 0) ≡ not (shows_photo db)
  shows_agrees = rw shown_agrees (keep_nothing (is_public db) db.assets)

  pairs_agree : (verified_pairs db == length (shown_assets db) * 2) ≡ has_derivatives db
  unfolding verified_pairs
  pairs_agree = rw shown_agrees (
      (count_all (keep (is_public db) db.assets) db.objects
        (keep-distinct (is_public db) db.assets assets) objects).1
      ∙ ap not (any-kept (lacks_derivative db.objects) (is_public db) db.assets))

  complete_agrees : is_complete db ≡ is_gallery_complete db
  complete_agrees = rw (manifest_agrees db, shows_agrees, pairs_agree) (ground arith)

-- A complete gallery goes from Processing to Review, and an incomplete one back.
abbrev pub settled_state : (complete : Bool) → EventState → EventState
settled_state true EventState.processing = EventState.review
settled_state false EventState.review = EventState.processing
settled_state complete state = state

settled_agrees :
    (complete : Bool) (state : EventState)
    → state_for_derivative_readiness state complete ≡ settled_state complete state
unfolding state_for_derivative_readiness
settled_agrees true state = ground arith
settled_agrees false state = ground arith

-- With exact totals, and where no two photos have one id and no photo has two rows of one derivative, a
-- refresh never raises. It answers whether the gallery is complete: the event points to a committed manifest
-- of its generation, some photo is shown, and each shown photo has a verified preview and a verified
-- thumbnail. It records the generation of a complete gallery and clears that of an incomplete one, unless
-- the manifest is not current, and it moves an event with shown photos and a current manifest between
-- Processing and Review accordingly. The totals stay exact.
pub refresh-completes :
    (now : ℕ) (db : Db)
    → CountersExact db
    → are_distinct_assets db.assets ≡ true
    → are_distinct_objects db.objects ≡ true
    → (db' : Db) × (refresh_derivative_readiness now db ≡ ok (is_gallery_complete db, db'))
      × (db'.event.derivatives_ready_generation ≡ (
          if is_gallery_complete db
          then some db.event.intake_generation
          else if is_manifest_committed db
          then none
          else db.event.derivatives_ready_generation))
      × (db'.event.state ≡ (
          if is_manifest_committed db && shows_photo db
          then settled_state (is_gallery_complete db) db.event.state
          else db.event.state))
      × CountersExact db'
refresh-completes now db x da d =
    let (db', answer, (ready, state, y)) = refresh-answers now db x in
    let complete = complete_agrees db da d in
    let manifest = manifest_agrees db in
    let shows = shows_agrees db da d in
    (
      db',
      answer ∙ ap (λ c. ok (c, db')) complete,
      ready ∙ ground (arith, complete, manifest),
      state
          ∙ ground (
            arith,
            complete,
            manifest,
            shows,
            settled_agrees (is_gallery_complete db) db.event.state,
          ),
      y,
    )
