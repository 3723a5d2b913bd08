-- ===== src/Sessions/Rotation.antt =====
-- What an accepted refresh leaves: tokens that work at once.
use openfotos_platform.Prelude.{
  ℕ, ◌≡◌, refl, true, false, none, some, List, [], ◌∷◌, ok, arith, ltb, any, find, replace, ◌==◌,
  =ᵗ_refl, ==_refl, Bool, Text, ◌=ᵗ◌, Option, Option-cases, inl, inr,
}
use openfotos_platform.Sessions.{
  is_live, SessionRow, SessionTokens, Auth, Tokens, TokenPolicy, is_member, is_taken,
  is_valid_access, authenticate_access_token, is_previous, save_session, session_for_refresh,
  session_for_previous_refresh, refresh_session, rotate_session, rotated, record_session,
  SessionAudit,
}
use openfotos_platform.Sessions.Sole.{accepts}

listed :
    (q : SessionRow → Bool) (r : SessionRow) (rows : List SessionRow)
    → find q rows ≡ some r
    → any (λ x. x.id == r.id) rows ≡ true
unfolding find any
listed q r [] h = ground arith
listed q r (x ∷ rows) h = ground (arith, listed q r rows, ==_refl r.id)

usable_row :
    (later : ℕ) (row : SessionRow) (rows : List SessionRow)
    → any (λ x. x.id == row.id) rows ≡ true
    → is_taken row rows ≡ false
    → is_valid_access later row.access_token_hash row ≡ true
    → find (is_valid_access later row.access_token_hash) (replace (λ x. x.id == row.id) row rows)
      ≡ some row
unfolding find any replace is_taken
usable_row later row [] h e v = ground arith
usable_row later row (x ∷ rows) h e v = ground (arith, usable_row later row rows)

module _ (p : TokenPolicy) where
  resumed :
      (digest : Text) (now : ℕ) (a a' : Auth) (r : SessionRow)
      → session_for_refresh p digest now a ≡ (some r, a')
      → (any (λ x. x.id == r.id) a.sessions ≡ true) × (a' ≡ a)
  unfolding session_for_previous_refresh
  resumed digest now a a' r e =
      elim (Option-cases (find (λ x. x.refresh_token_hash =ᵗ digest) a.sessions)) [
        | inr (x, current) ↦
            ground (arith, current, listed (λ y. y.refresh_token_hash =ᵗ digest) r a.sessions)
        | inl unknown ↦ elim (Option-cases (find (is_previous digest) a.sessions)) [
          | inl nothing ↦ ground (arith, unknown, nothing)
          | inr (x, previous) ↦
              ground (arith, unknown, previous, listed (is_previous digest) r a.sessions)
        ]
      ]

  -- The writes of an accepted rotation.
  rotation :
      (now : ℕ) (t : Tokens) (before a : Auth) (r : SessionRow) (answer : SessionTokens)
      → (rotate_session p now t before (some r, a)).0 ≡ ok answer
      → (answer ≡ record { session = rotated p now t r; tokens = t })
        × (is_taken (rotated p now t r) a.sessions ≡ false)
        × (is_member r.photographer r.user a ≡ true)
        × (is_live r ≡ true)
        × ((rotate_session p now t before (some r, a)).1
            ≡ record_session (SessionAudit.token_refresh r.id) (save_session (rotated p now t r) a))
  rotation now t before a r answer e = ground arith

  same_member :
      (photographer user : ℕ) (rows : List SessionRow) (log : List SessionAudit) (a : Auth)
      → is_member photographer user a ≡ true
      → is_member photographer user (record a { sessions = rows; audit = log }) ≡ true
  unfolding is_member
  same_member photographer user rows log a member = member

  rotated_accepted :
      (now later : ℕ) (token : Text) (t : Tokens) (a : Auth) (resumption : Option SessionRow × Auth)
      (answer : SessionTokens)
      → session_for_refresh p (p.token_digest token) now a ≡ resumption
      → (rotate_session p now t a resumption).0 ≡ ok answer
      → ltb later answer.session.access_expires_at ≡ true
      → authenticate_access_token p later t.access_token (rotate_session p now t a resumption).1
        ≡ ok answer.session
  rotated_accepted now later token t a (none, a1) answer q e fresh = ground arith
  rotated_accepted now later token t a (some r, a1) answer q e fresh =
      let row = rotated p now t r in
      let (own, same) = resumed (p.token_digest token) now a a1 r q in
      let (is, untaken, member, live, written) = rotation now t a a1 r answer e in
      let own1 : any (λ x. x.id == row.id) a1.sessions ≡ true = rw same own in
      let valid : is_valid_access later row.access_token_hash row ≡ true =
        ground (arith, is, fresh, live, =ᵗ_refl row.access_token_hash) in
      rw (written, is)
        (accepts p later t.access_token
          (record_session (SessionAudit.token_refresh r.id) (save_session row a1)) row
          (usable_row later row a1.sessions own1 untaken valid)
          (same_member r.photographer r.user _ _ a1 member))

  -- The access token of an accepted refresh is accepted until it expires.
  pub refresh_session-usable :
      (now later : ℕ) (token : Text) (t : Tokens) (a : Auth) (answer : SessionTokens)
      → (refresh_session p now token t a).0 ≡ ok answer
      → ltb later answer.session.access_expires_at ≡ true
      → authenticate_access_token p later t.access_token (refresh_session p now token t a).1
        ≡ ok answer.session
  unfolding refresh_session
  refresh_session-usable now later token t a answer e fresh =
      rotated_accepted now later token t a (session_for_refresh p (p.token_digest token) now a)
        answer refl e fresh
