-- ===== src/Derivatives/Failures.antt =====
-- `report_derivative_failure` of derivative_services.py: a desktop tells that it could not derive the
-- previews of a photo.
use openfotos_platform.Prelude.{
  Result-cases, refl, inl, inr, ==_refl, find-update, ℕ, ◌+◌, Bool, not, ◌&&◌, ◌||◌, some, Text,
  Result, ok, raise_if, ◌>>=◌, ◌>>◌, ◌==◌, leb, any, find, ◌≡◌, arith, length, update,
}
use openfotos_platform.Models.{Code, DesktopSession, Asset, Db, AuditEntry, record_audit}
use openfotos_platform.Platform.{Platform}
use openfotos_platform.Ingest.Rows.{event_for_session}
use openfotos_platform.Derivatives.{asset_for_processing_session}

-- `[a-z0-9_]`
abbrev pub is_code_character : ℕ → Bool
is_code_character c = (leb b'a' c && leb c b'z') || ((leb b'0' c && leb c b'9') || c == b'_')

-- `re.fullmatch(r"[a-z0-9_]{1,64}", code)`
unfoldable pub is_failure_code : Text → Bool
is_failure_code code =
    leb 1 (length code) && (leb (length code) 64 && not (any (λ c. not (is_code_character c)) code))

abbrev pub failure_row : (now : ℕ) → Text → Asset → Asset
failure_row now code a = record a {
  derivative_failure_code = code;
  derivative_failure_at = some now;
  derivative_attempt_count = a.derivative_attempt_count + 1;
}

module _ (p : Platform) where
  unfoldable pub report_derivative_failure :
      DesktopSession → (event_id asset_id : ℕ) → Text → (now : ℕ) → Db → Result Code (Asset × Db)
  report_derivative_failure s event_id asset_id code now db = do
    let normalized_code = p.strip code
    raise_if (not (is_failure_code normalized_code)) Code.invalid_failure_code
    event ← event_for_session s event_id db
    asset ← asset_for_processing_session s asset_id db
    ok (
      failure_row now normalized_code asset,
      record_audit (AuditEntry.derivative_failed asset.id normalized_code) (record db {
        assets = update (λ a. a.id == asset.id) (failure_row now normalized_code) db.assets;
      }),
    )

  found_asset :
      (s : DesktopSession) (asset_id : ℕ) (db : Db) (a : Asset)
      → asset_for_processing_session s asset_id db ≡ ok a
      → find (λ r. r.id == asset_id) db.assets ≡ some a
  unfolding asset_for_processing_session
  found_asset s asset_id db a h = ground arith

  accepted_report :
      (s : DesktopSession) (event_id asset_id : ℕ) (code : Text) (now : ℕ) (a : Asset) (db db' : Db)
      → report_derivative_failure s event_id asset_id code now db ≡ ok (a, db')
      → (asset : Asset) × (asset_for_processing_session s asset_id db ≡ ok asset)
        × (a ≡ failure_row now (p.strip code) asset)
        × (db'.assets ≡ update (λ r. r.id == asset.id) (failure_row now (p.strip code)) db.assets)
  unfolding report_derivative_failure
  accepted_report s event_id asset_id code now a db db' h =
      elim (Result-cases (asset_for_processing_session s asset_id db)) [
        | inl (asset, e) ↦ (asset, e, ground arith, ground arith)
        | inr (c, e) ↦ ground arith
      ]

  -- A report that is accepted is on the row of the photo.
  report_then_find :
      (s : DesktopSession) (event_id asset_id : ℕ) (code : Text) (now : ℕ) (a : Asset) (db db' : Db)
      → report_derivative_failure s event_id asset_id code now db ≡ ok (a, db')
      → find (λ r. r.id == asset_id) db'.assets ≡ some a
  report_then_find s event_id asset_id code now a db db' h =
      let (asset, owned, row, rows) = accepted_report s event_id asset_id code now a db db' h in
      let kept =
        find-update (λ r. r.id == asset_id) (λ r. r.id == asset.id) (failure_row now (p.strip code))
          (λ r. refl) db.assets asset (found_asset s asset_id db asset owned) in
      ground (arith, row, rows, kept, ==_refl asset.id)
