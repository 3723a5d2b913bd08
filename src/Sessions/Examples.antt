-- ===== src/Sessions/Examples.antt =====
-- One desktop that signs in and refreshes, and the witnesses of the theorems on sessions.
use openfotos_platform.Sessions.Replay.{refresh_session-bars_replay}
use openfotos_platform.Sessions.Sole.{issue_session-is_sole, live_sessions}
use openfotos_platform.Sessions.Rotation.{refresh_session-usable}
use openfotos_platform.Prelude.{
  ◌≡◌, refl, true, none, some, ok, err, ◌∷◌, [], find, any, update, ◌=ᵗ◌, ◌==◌,
}
use openfotos_platform.Sessions.{
  SessionRow, SessionTokens, Auth, Tokens, TokenPolicy, DesktopAuthError, is_member, is_taken,
  issue_session, new_session, refresh_session, authenticate_access_token, is_previous, rotated,
}

abbrev policy : TokenPolicy
policy = record {
  token_digest = λ t. t;
  desktop_access_ttl_seconds = 600;
  desktop_refresh_ttl_seconds = 3600;
  desktop_refresh_retry_grace_seconds = 60;
}

abbrev first : Tokens
first = record { access_token = 1 ∷ []; refresh_token = 2 ∷ [] }

abbrev second : Tokens
second = record { access_token = 3 ∷ []; refresh_token = 4 ∷ [] }

abbrev signed_out : Auth
signed_out = record {
  users = record { id = 20; is_active = true } ∷ [];
  memberships = record { photographer = 10; user = 20; is_active = true } ∷ [];
  sessions = [];
  audit = [];
}

abbrev row : SessionRow
row = new_session policy 0 5 10 40 20 first

abbrev online : Auth
online = record signed_out { sessions = row ∷ [] }

abbrev answer : SessionTokens
answer = record { session = row; tokens = first }

first_sign_in : issue_session policy 0 5 10 40 20 first signed_out ≡ ok (answer, online)
unfolding issue_session any is_taken update
first_sign_in = refl

first_member : is_member 10 20 signed_out ≡ true
unfolding is_member any
first_member = refl

issue_session-is_sole_example :
    (live_sessions 10 40 20 online.sessions ≡ 1)
    × (authenticate_access_token policy 9 first.access_token online ≡ ok row)
issue_session-is_sole_example =
    issue_session-is_sole policy 0 9 5 10 40 20 first signed_out online answer first_sign_in
      first_member refl

abbrev refreshed : SessionTokens
refreshed = record { session = rotated policy 7 second row; tokens = second }

first_refresh : (refresh_session policy 7 first.refresh_token second online).0 ≡ ok refreshed
unfolding refresh_session find ◌=ᵗ◌ is_member any is_taken
first_refresh = refl

refresh_session-usable_example :
    authenticate_access_token policy 9 second.access_token
      (refresh_session policy 7 first.refresh_token second online).1
    ≡ ok refreshed.session
refresh_session-usable_example =
    refresh_session-usable policy 7 9 first.refresh_token second online refreshed first_refresh refl

abbrev later_row : SessionRow
later_row = rotated policy 7 second row

abbrev rotated_online : Auth
rotated_online = record online { sessions = later_row ∷ [] }

unknown_token :
    find
      (λ x. x.refresh_token_hash =ᵗ policy.token_digest first.refresh_token)
      rotated_online.sessions
    ≡ none
unfolding find ◌=ᵗ◌
unknown_token = refl

previous_token :
    find (is_previous (policy.token_digest first.refresh_token)) rotated_online.sessions
    ≡ some later_row
unfolding find ◌=ᵗ◌
previous_token = refl

own_row : find (λ x. x.id == later_row.id) rotated_online.sessions ≡ some later_row
unfolding find
own_row = refl

refresh_session-bars_replay_example :
    let (refusal, left) =
      refresh_session policy 90000000 first.refresh_token first rotated_online in
    (refusal ≡ err DesktopAuthError.invalid_refresh_token)
    × (row : SessionRow) × (find (λ x. x.id == later_row.id) left.sessions ≡ some row)
    × (row.revoked_at ≡ some 90000000)
refresh_session-bars_replay_example =
    refresh_session-bars_replay policy 90000000 first.refresh_token first rotated_online later_row
      unknown_token previous_token own_row refl
