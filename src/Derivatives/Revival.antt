-- ===== src/Derivatives/Revival.antt =====
-- What the verification of a derivative does to an upload that was excluded meanwhile.
use openfotos_platform.Ingest.Exclude.{releasable_count, is_releasable, excluded_row}
use openfotos_platform.Ingest.Counters.Release.{released}
use openfotos_platform.Models.{save_event, decrease}
use openfotos_platform.Ingest.Counters.{live_bytes, CountersExact}
use openfotos_platform.Ingest.Exclude.{excluded_row, releasable_bytes, cancel_rows, release}
use openfotos_platform.States.{ContributionState}
use openfotos_platform.Prelude.{
  ◌==◌, total-update, ap, List, [], ◌∷◌, Bool, ◌+◌, if◌then◌else◌, find, replace, find_sound, ℕ,
  ◌≡◌, refl, ok, arith, true, some, total,
}
use openfotos_platform.Models.{decrease, ContributionBatch, AssetObject, Db}
use openfotos_platform.Platform.{Platform, Head}
use openfotos_platform.Ingest.Rows.{is_excluded, World}
use openfotos_platform.Derivatives.{
  update, is_derivative, ◌&&◌, not, UploadObjectState, save_object, codes, save_event, ◌∷◌, List,
  Bool, derivative_failed_row, err, replace, Code, find, is_object, settle_derivative,
  derivative_mismatch,
}

find-replaced :
    {A : Type 0} (q : A → Bool) (x y : A) (xs : List A)
    → find q xs ≡ some x
    → q y ≡ true
    → find q (replace q y xs) ≡ some y
unfolding find replace
find-replaced q x y [] f h = ground arith
find-replaced q x y (z ∷ xs) f h = ground (arith, find-replaced q x y xs)

settle_derivative_lem :
    (p : Platform) (now : ℕ) (h : Head) (c : Code) (upload o : AssetObject) (b : p.Bucket)
    (w : World p)
    → derivative_mismatch p upload h ≡ some c
    → p.delete o.object_key w.bucket ≡ (true, b)
    → settle_derivative p now h upload o w
      ≡ (err c, record w { db = save_object (derivative_failed_row c o) w.db; bucket = b })
unfolding settle_derivative
settle_derivative_lem p now h c upload o b w m d = rw (settle_derivative, m, d) refl

-- A mismatch whose object the store removes is answered with its code. Whatever state the row of the
-- derivative has by then, Excluded included, and whatever it said when it was read before the lock, it is
-- in the state Failed afterwards, with the code of the mismatch.
pub settle_derivative-revives :
    (p : Platform) (now : ℕ) (h : Head) (c : Code) (upload o : AssetObject) (b : p.Bucket)
    (w : World p)
    → derivative_mismatch p upload h ≡ some c
    → p.delete o.object_key w.bucket ≡ (true, b)
    → find (is_object o.asset o.variant) w.db.objects ≡ some o
    → let (answer, w') = settle_derivative p now h upload o w in
      (answer ≡ err c)
      × (w'.bucket ≡ b)
      × (row : AssetObject) × (find (is_object o.asset o.variant) w'.db.objects ≡ some row)
      × (row.state ≡ UploadObjectState.failed)
      × (row.failure_code ≡ some c)
settle_derivative-revives p now h c upload o b w m d f =
    let mine = is_object o.asset o.variant in
    let row = derivative_failed_row c o in
    rw (settle_derivative_lem p now h c upload o b w m d) (
      refl,
      refl,
      row,
      find-replaced mine o row w.db.objects f (find_sound mine w.db.objects o f),
      refl,
      refl,
    )

-- The bytes of the batch's previews and thumbnails that are not excluded.
abbrev pub stray_bytes : (batch : ℕ) → List AssetObject → ℕ
stray_bytes batch objects =
    total
      (λ o.
        if o.batch == batch && (is_derivative o.variant && not (is_excluded o.state))
        then o.expected_bytes
        else 0)
      objects

releasable_split :
    (batch : ℕ) (objects : List AssetObject)
    → releasable_bytes batch objects ≡ released live_bytes batch objects + stray_bytes batch objects
unfolding total
releasable_split batch [] = ground arith
releasable_split batch (o ∷ os) = ground (arith, releasable_split batch os)

release_result :
    (now bytes count : ℕ) (db db' : Db)
    → release now bytes count db ≡ ok db'
    → (db'.event.reserved_original_bytes + bytes ≡ db.event.reserved_original_bytes)
      × (db'.objects ≡ db.objects)
unfolding release save_event decrease
release_result now bytes count db db' e = ground arith

-- A cancellation that is carried out gives back the bytes of the batch's live previews and
-- thumbnails as well, though the reservation never held them: the event's total is short of its
-- live originals by exactly those bytes.
pub cancel_rows-over_release :
    (now user : ℕ) (b : ContributionBatch) (db db' : Db)
    → CountersExact db
    → cancel_rows now user b db ≡ ok db'
    → total live_bytes db'.objects ≡ db'.event.reserved_original_bytes + stray_bytes b.id db.objects
unfolding cancel_rows
cancel_rows-over_release now user b db db' x e =
    let change = excluded_row user (codes "Contribution cancelled by the photographer.") in
    let written : Db = record db {
      objects = update (is_releasable b.id) change db.objects;
      batches =
          update (λ r. r.id == b.id)
            (λ r. record r { state = ContributionState.cancelled; cancelled_at = some now })
            db.batches;
    } in
    let (left, rows) =
      release_result now (releasable_bytes b.id db.objects) (releasable_count b.id db.objects)
        written db' e in
    omega (
      arith,
      left,
      x.reserved_bytes,
      releasable_split b.id db.objects,
      ap (total live_bytes) rows,
      total-update live_bytes (is_releasable b.id) change (λ o h. ground arith) db.objects,
    )
