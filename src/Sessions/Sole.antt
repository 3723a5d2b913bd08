-- ===== src/Sessions/Sole.antt =====
-- What a sign-in leaves: one live session of the desktop, whose access token is accepted.
use openfotos_platform.Prelude.{
  ℕ, Bool, ◌+◌, ◌≡◌, true, false, none, some, List, [], ◌∷◌, ok, arith, ltb, total, any, find,
  update, ◌==◌, if◌then◌else◌, =ᵗ_refl, ==_refl, Text,
}
use openfotos_platform.Sessions.{
  SessionRow, SessionTokens, Auth, Tokens, TokenPolicy, is_member, is_taken, is_session_of,
  new_session, insert_session, issue_session, is_valid_access, authenticate_access_token,
}

abbrev pub live_sessions : (photographer installation_id user : ℕ) → List SessionRow → ℕ
live_sessions photographer installation_id user rows =
    total (λ r. if is_session_of photographer installation_id user r then 1 else 0) rows

revoked_all :
    (photographer installation_id user now : ℕ) (rows : List SessionRow)
    → live_sessions photographer installation_id user (
        update
          (is_session_of photographer installation_id user)
          (λ r. record r { revoked_at = some now })
          rows)
      ≡ 0
unfolding total update
revoked_all photographer installation_id user now [] = ground arith
revoked_all photographer installation_id user now (r ∷ rows) =
    ground (arith, revoked_all photographer installation_id user now rows)

-- No row holds a digest that is not taken.
unmatched :
    (now later photographer installation_id user : ℕ) (row : SessionRow) (rows : List SessionRow)
    → any (λ r. r.id == row.id) rows ≡ false
    → is_taken row rows ≡ false
    → find (is_valid_access later row.access_token_hash) (
        update
          (is_session_of photographer installation_id user)
          (λ r. record r { revoked_at = some now })
          rows)
      ≡ none
unfolding find update any is_taken
unmatched now later photographer installation_id user row [] h e = ground arith
unmatched now later photographer installation_id user row (r ∷ rows) h e =
    ground (arith, unmatched now later photographer installation_id user row rows)

find-insert_session :
    (q : SessionRow → Bool) (row : SessionRow) (rows : List SessionRow)
    → find q rows ≡ none
    → q row ≡ true
    → find q (insert_session row rows) ≡ some row
unfolding find insert_session
find-insert_session q row [] h e = ground (arith, e)
find-insert_session q row (r ∷ rows) h e = ground (arith, h, e, find-insert_session q row rows)

total-insert_session :
    (w : SessionRow → ℕ) (row : SessionRow) (rows : List SessionRow)
    → total w (insert_session row rows) ≡ w row + total w rows
unfolding total insert_session
total-insert_session w row [] = ground arith
total-insert_session w row (r ∷ rows) = ground (arith, total-insert_session w row rows)

module _ (p : TokenPolicy) where
  issued :
      (now id photographer installation_id user : ℕ) (t : Tokens) (a a' : Auth)
      (answer : SessionTokens)
      → issue_session p now id photographer installation_id user t a ≡ ok (answer, a')
      → (any (λ r. r.id == id) a.sessions ≡ false)
        × (is_taken (new_session p now id photographer installation_id user t) a.sessions ≡ false)
        × (answer ≡ record {
          session = new_session p now id photographer installation_id user t;
          tokens = t;
        })
        × (a' ≡ record a {
          sessions = insert_session (new_session p now id photographer installation_id user t) (
              update
                (is_session_of photographer installation_id user)
                (λ r. record r { revoked_at = some now })
                a.sessions);
        })
  unfolding issue_session
  issued now id photographer installation_id user t a a' answer e = ground arith

  pub accepts :
      (later : ℕ) (token : Text) (a : Auth) (row : SessionRow)
      → find (is_valid_access later (p.token_digest token)) a.sessions ≡ some row
      → is_member row.photographer row.user a ≡ true
      → authenticate_access_token p later token a ≡ ok row
  unfolding authenticate_access_token
  accepts later token a row found member = ground (arith, found, member)

  same_member :
      (photographer user : ℕ) (rows : List SessionRow) (a : Auth)
      → is_member photographer user a ≡ true
      → is_member photographer user (record a { sessions = rows }) ≡ true
  unfolding is_member
  same_member photographer user rows a member = member

  -- After a sign-in exactly one session of the desktop and user is live, whatever sessions were there,
  -- and until it expires its access token is accepted from an active member.
  pub issue_session-is_sole :
      (now later id photographer installation_id user : ℕ) (t : Tokens) (a a' : Auth)
      (answer : SessionTokens)
      → issue_session p now id photographer installation_id user t a ≡ ok (answer, a')
      → is_member photographer user a ≡ true
      → ltb later answer.session.access_expires_at ≡ true
      → (live_sessions photographer installation_id user a'.sessions ≡ 1)
        × (authenticate_access_token p later t.access_token a' ≡ ok answer.session)
  unfolding total
  issue_session-is_sole now later id photographer installation_id user t a a' answer e member
        fresh =
      let row = new_session p now id photographer installation_id user t in
      let mine = is_session_of photographer installation_id user in
      let old = update mine (λ r. record r { revoked_at = some now }) a.sessions in
      let (unused, untaken, is, left) =
        issued now id photographer installation_id user t a a' answer e in
      let current : ltb later row.access_expires_at ≡ true = ground (arith, is, fresh) in
      let accepted : is_valid_access later row.access_token_hash row ≡ true =
        ground (arith, current, =ᵗ_refl row.access_token_hash) in
      let found =
        find-insert_session (is_valid_access later row.access_token_hash) row old
          (unmatched now later photographer installation_id user row a.sessions unused untaken)
          accepted in
      let counted = total-insert_session (λ r. if mine r then 1 else 0) row old in
      (
        rw left (
            ground (
              arith,
              counted,
              revoked_all photographer installation_id user now a.sessions,
              ==_refl photographer,
              ==_refl installation_id,
              ==_refl user,
            )),
        rw (left, is)
            (accepts later t.access_token (record a { sessions = insert_session row old }) row found
              (same_member photographer user (insert_session row old) a member)),
      )
