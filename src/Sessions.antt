-- ===== src/Sessions.antt =====
-- The sessions of apps/server/src/openfotos_server/events/desktop_auth.py: a desktop signs in, refreshes
-- its tokens and signs out. Fresh tokens are arguments, the digest of a token and `authenticate` of the
-- framework are parameters, and times are microseconds. The rows are in the order of their ids.
pub mod Sole
pub mod Replay
pub mod Rotation
pub mod Examples
use openfotos_platform.Prelude.{
  ℕ, ◌+◌, ◌-◌, ◌*◌, Bool, true, false, not, ◌&&◌, ◌||◌, Option, none, some, List, [], ◌∷◌, ◌++◌,
  Text, Result, ok, err, ◌==◌, ◌=ᵗ◌, ltb, leb, any, find, replace, update, if◌then◌else◌,
}
use openfotos_platform.Models.{Membership, is_set}
use openfotos_platform.RateLimits.{microseconds}

pub data DesktopAuthError : Type 0 where
  invalid_credentials invalid_access_token invalid_refresh_token token_taken : DesktopAuthError

pub record User : Type 0 where
  pub id : ℕ
  pub is_active : Bool

pub record SessionRow : Type 0 where
  pub id : ℕ
  pub photographer : ℕ
  pub user : ℕ
  pub installation_id : ℕ
  pub access_token_hash : Text
  pub access_expires_at : ℕ
  pub refresh_token_hash : Text
  pub previous_refresh_token_hash : Text
  pub refresh_expires_at : ℕ
  pub revoked_at : Option ℕ
  pub updated_at : ℕ

pub data SessionAudit : Type 0 where
  login_denied : (photographer : ℕ) → SessionAudit
  login token_refresh logout : (session : ℕ) → SessionAudit

pub record Auth : Type 0 where
  pub users : List User
  pub memberships : List Membership
  pub sessions : List SessionRow
  pub audit : List SessionAudit

pub record Tokens : Type 0 where
  pub access_token : Text
  pub refresh_token : Text

pub record SessionTokens : Type 0 where
  pub session : SessionRow
  pub tokens : Tokens

-- The digest of a token, and the settings.
pub record TokenPolicy : Type 0 where
  pub token_digest : Text → Text
  pub desktop_access_ttl_seconds : ℕ
  pub desktop_refresh_ttl_seconds : ℕ
  pub desktop_refresh_retry_grace_seconds : ℕ

abbrev pub seconds : ℕ → ℕ
seconds n = n * microseconds

abbrev pub is_live : SessionRow → Bool
is_live r = not (is_set r.revoked_at)

-- `_active_membership`
unfoldable pub is_member : (photographer user : ℕ) → Auth → Bool
is_member photographer user a =
    any (λ u. u.id == user && u.is_active) a.users
    && any (λ m. m.photographer == photographer && (m.user == user && m.is_active)) a.memberships

abbrev pub record_session : SessionAudit → Auth → Auth
record_session entry a = record a { audit = a.audit ++ entry ∷ [] }

-- The unique columns: another row holds one of the row's digests.
unfoldable pub is_taken : SessionRow → List SessionRow → Bool
is_taken row rows =
    any
      (λ r.
        not (r.id == row.id)
        && (r.access_token_hash =ᵗ row.access_token_hash
            || r.refresh_token_hash =ᵗ row.refresh_token_hash))
      rows

abbrev pub is_session_of : (photographer installation_id user : ℕ) → SessionRow → Bool
is_session_of photographer installation_id user r =
    r.photographer == photographer
    && (r.installation_id == installation_id && (r.user == user && is_live r))

-- `reused.save(...)`, `session.save(...)`
abbrev pub save_session : SessionRow → Auth → Auth
save_session row a = record a { sessions = replace (λ r. r.id == row.id) row a.sessions }

abbrev pub revoked_session : (now : ℕ) → SessionRow → SessionRow
revoked_session now r = record r { revoked_at = some now; updated_at = now }

-- A new row stands where its id puts it.
unfoldable pub insert_session : SessionRow → List SessionRow → List SessionRow
insert_session row [] = row ∷ []
insert_session row (r ∷ rs) =
    let rest = r ∷ insert_session row rs in if leb row.id r.id then row ∷ r ∷ rs else rest

abbrev pub is_valid_access : (now : ℕ) → Text → SessionRow → Bool
is_valid_access now digest r =
    r.access_token_hash =ᵗ digest && (ltb now r.access_expires_at && is_live r)

abbrev pub is_previous : Text → SessionRow → Bool
is_previous digest r = r.previous_refresh_token_hash =ᵗ digest && is_live r

module _ (p : TokenPolicy) where
  open p use {
    token_digest, desktop_access_ttl_seconds, desktop_refresh_ttl_seconds,
    desktop_refresh_retry_grace_seconds,
  }

  abbrev pub new_session : (now id photographer installation_id user : ℕ) → Tokens → SessionRow
  new_session now id photographer installation_id user t = record {
    id = id;
    photographer = photographer;
    user = user;
    installation_id = installation_id;
    access_token_hash = token_digest t.access_token;
    access_expires_at = now + seconds desktop_access_ttl_seconds;
    refresh_token_hash = token_digest t.refresh_token;
    previous_refresh_token_hash = [];
    refresh_expires_at = now + seconds desktop_refresh_ttl_seconds;
    revoked_at = none;
    updated_at = now;
  }

  -- `id` is the new row's random id.
  unfoldable pub issue_session :
      (now id photographer installation_id user : ℕ)
      → Tokens
      → Auth
      → Result DesktopAuthError (SessionTokens × Auth)
  unfolding insert_session
  issue_session now id photographer installation_id user t a =
      let row = new_session now id photographer installation_id user t in
      if any (λ r. r.id == id) a.sessions || is_taken row a.sessions
      then err token_taken
      else ok (
        record { session = row; tokens = t },
        record a {
          sessions = insert_session row (
              update (is_session_of photographer installation_id user)
                (λ r. record r { revoked_at = some now }) a.sessions);
        },
      )

  abbrev pub signed_in :
      Auth
      → Result DesktopAuthError (SessionTokens × Auth)
      → Result DesktopAuthError SessionTokens × Auth
  signed_in a (ok (tokens, a')) = (ok tokens, record_session (login tokens.session.id) a')
  signed_in a (err c) = (err c, a)

  -- `user` is what `authenticate` answers.
  unfoldable pub authenticate_photographer :
      (now id photographer installation_id : ℕ)
      → (user : Option ℕ) → Tokens
      → Auth
      → Result DesktopAuthError SessionTokens × Auth
  authenticate_photographer now id photographer installation_id none t a =
      (err invalid_credentials, record_session (login_denied photographer) a)
  authenticate_photographer now id photographer installation_id (some user) t a =
      if is_member photographer user a
      then signed_in a (issue_session now id photographer installation_id user t a)
      else (err invalid_credentials, record_session (login_denied photographer) a)

  unfoldable pub authenticate_access_token :
      (now : ℕ) → Text → Auth → Result DesktopAuthError SessionRow
  authenticate_access_token now token a =
      elim (find (is_valid_access now (token_digest token)) a.sessions) [
        | none ↦ err invalid_access_token
        | some r ↦ if is_member r.photographer r.user a then ok r else err invalid_access_token
      ]

  abbrev pub in_grace : (now : ℕ) → SessionRow → Bool
  in_grace now r =
      ltb now r.refresh_expires_at
      && leb (now - r.updated_at) (seconds desktop_refresh_retry_grace_seconds)

  -- `_session_for_previous_refresh`: within the grace the session, and after it a revocation.
  unfoldable pub session_for_previous_refresh : Text → (now : ℕ) → Auth → Option SessionRow × Auth
  session_for_previous_refresh digest now a = elim (find (is_previous digest) a.sessions) [
    | none ↦ (none, a)
    | some r ↦
        if in_grace now r then (some r, a) else (none, save_session (revoked_session now r) a)
  ]

  abbrev pub rotated : (now : ℕ) → Tokens → SessionRow → SessionRow
  rotated now t r = record r {
    previous_refresh_token_hash = r.refresh_token_hash;
    refresh_token_hash = token_digest t.refresh_token;
    access_token_hash = token_digest t.access_token;
    access_expires_at = now + seconds desktop_access_ttl_seconds;
    updated_at = now;
  }

  -- A raise inside the transaction leaves `before`; an unavailable session raises after its commit.
  abbrev pub rotate_session :
      (now : ℕ)
      → Tokens
      → (before : Auth) → Option SessionRow × Auth
      → Result DesktopAuthError SessionTokens × Auth
  rotate_session now t before (none, a) = (err invalid_refresh_token, a)
  rotate_session now t before (some r, a) =
      if not (is_live r) || leb r.refresh_expires_at now
      then (err invalid_refresh_token, a)
      else if not (is_member r.photographer r.user a)
      then (err invalid_access_token, before)
      else if is_taken (rotated now t r) a.sessions
      then (err token_taken, before)
      else (
        ok (record { session = rotated now t r; tokens = t }),
        record_session (token_refresh r.id) (save_session (rotated now t r) a),
      )

  abbrev pub session_for_refresh : Text → (now : ℕ) → Auth → Option SessionRow × Auth
  session_for_refresh digest now a = elim (find (λ r. r.refresh_token_hash =ᵗ digest) a.sessions) [
    | none ↦ session_for_previous_refresh digest now a
    | some r ↦ (some r, a)
  ]

  unfoldable pub refresh_session :
      (now : ℕ) → Text → Tokens → Auth → Result DesktopAuthError SessionTokens × Auth
  unfolding session_for_previous_refresh is_member is_taken
  refresh_session now token t a =
      rotate_session now t a (session_for_refresh (token_digest token) now a)

  abbrev pub sign_out :
      (now photographer : ℕ) → Auth → Option SessionRow → Result DesktopAuthError (Unit {0}) × Auth
  sign_out now photographer a none = (ok tt, a)
  sign_out now photographer a (some r) =
      if not (r.photographer == photographer)
      then (err invalid_refresh_token, a)
      else if not (is_live r)
      then (ok tt, a)
      else (ok tt, record_session (logout r.id) (save_session (revoked_session now r) a))

  unfoldable pub revoke_session :
      (now : ℕ) → Text → (photographer : ℕ) → Auth → Result DesktopAuthError (Unit {0}) × Auth
  revoke_session now token photographer a =
      let digest = token_digest token in
      sign_out now photographer a (
        find (λ r. r.refresh_token_hash =ᵗ digest || r.previous_refresh_token_hash =ᵗ digest)
          a.sessions)
