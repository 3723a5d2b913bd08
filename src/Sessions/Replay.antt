-- ===== src/Sessions/Replay.antt =====
-- What a refresh leaves: usable tokens, or the revocation of a session whose token was used again.
use openfotos_platform.Prelude.{
  ℕ, ◌+◌, ◌*◌, ◌||◌, leb, ltb, true, ◌≡◌, refl, false, none, some, List, [], ◌∷◌, err, arith, find,
  replace, ◌==◌, ==_refl, Text, ◌=ᵗ◌,
}
use openfotos_platform.Sessions.{
  SessionRow, Auth, Tokens, TokenPolicy, is_previous, in_grace, revoked_session, save_session,
  session_for_previous_refresh, refresh_session, DesktopAuthError,
}

replaced_row :
    (row old : SessionRow) (rows : List SessionRow)
    → find (λ r. r.id == row.id) rows ≡ some old
    → find (λ r. r.id == row.id) (replace (λ r. r.id == row.id) row rows) ≡ some row
unfolding find replace
replaced_row row old [] h = ground arith
replaced_row row old (r ∷ rows) h = ground (arith, replaced_row row old rows, ==_refl row.id)

module _ (p : TokenPolicy) where
  replay_result :
      (now : ℕ) (token : Text) (t : Tokens) (a : Auth) (r : SessionRow)
      → find (λ x. x.refresh_token_hash =ᵗ p.token_digest token) a.sessions ≡ none
      → find (is_previous (p.token_digest token)) a.sessions ≡ some r
      → in_grace p now r ≡ false
      → refresh_session p now token t a
        ≡ (err DesktopAuthError.invalid_refresh_token, save_session (revoked_session now r) a)
  unfolding refresh_session session_for_previous_refresh
  replay_result now token t a r unknown previous late = ground (arith, unknown, previous, late)

  -- A refresh token that was already exchanged, and is used again after the grace for a retry (or after
  -- the session's refresh tokens expired), is refused, and the row of the session that had exchanged it is
  -- marked as revoked at that time.
  pub refresh_session-bars_replay :
      (now : ℕ) (token : Text) (t : Tokens) (a : Auth) (r : SessionRow)
      → find (λ x. x.refresh_token_hash =ᵗ p.token_digest token) a.sessions ≡ none
      → find (is_previous (p.token_digest token)) a.sessions ≡ some r
      → find (λ x. x.id == r.id) a.sessions ≡ some r
      → (leb r.refresh_expires_at now
          || ltb (r.updated_at + p.desktop_refresh_retry_grace_seconds * 1000000) now)
        ≡ true
      → let (answer, a') = refresh_session p now token t a in
        (answer ≡ err DesktopAuthError.invalid_refresh_token)
        × (left : SessionRow) × (find (λ x. x.id == r.id) a'.sessions ≡ some left)
        × (left.revoked_at ≡ some now)
  refresh_session-bars_replay now token t a r unknown previous own late =
      rw (replay_result now token t a r unknown previous (ground (arith, late)))
        (refl, revoked_session now r, replaced_row (revoked_session now r) r a.sessions own, refl)
