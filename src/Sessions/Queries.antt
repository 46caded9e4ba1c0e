-- ===== src/Sessions/Queries.antt =====
-- The SQL statements of services/auth/internal/store/refresh_tokens.sql.go and sessions.sql.go.
use zagforge_mvp.Prelude.{
  ℕ, String, Bool, true, false, ◌&&◌, Option, none, some, [], ◌∷◌, ◌++◌, str_eq, ◌==◌,
  if◌then◌else◌, find, update_where, any_where,
}
use zagforge_mvp.Sessions.Model.{RefreshToken, Session, SessionDb}

abbrev pub is_null : Option ℕ → Bool
is_null none = true
is_null (some t) = false

abbrev pub has_hash : String → RefreshToken → Bool
has_hash hash t = str_eq t.token_hash hash

abbrev pub has_token_id : ℕ → RefreshToken → Bool
has_token_id id t = t.id == id

abbrev pub has_session_id : ℕ → Session → Bool
has_session_id id s = s.id == id

abbrev pub revoked_token : ℕ → RefreshToken → RefreshToken
revoked_token now t = record t { revoked_at = some now }

abbrev pub revoked_session : ℕ → Session → Session
revoked_session now s = record s { revoked_at = some now }

-- getRefreshTokenByHash
unfoldable pub get_refresh_token_by_hash : String → SessionDb → Option RefreshToken
get_refresh_token_by_hash hash db = find (has_hash hash) db.tokens

-- getSessionByID
unfoldable pub get_session_by_id : ℕ → SessionDb → Option Session
get_session_by_id id db = find (has_session_id id) db.sessions

-- revokeRefreshToken
unfoldable pub revoke_refresh_token : ℕ → ℕ → SessionDb → SessionDb
revoke_refresh_token now id db = record db {
  tokens = update_where (has_token_id id) (revoked_token now) db.tokens;
}

abbrev pub new_token : ℕ → ℕ → ℕ → ℕ → String → ℕ → RefreshToken
new_token now id user session hash expires = record {
  id = id;
  user_id = user;
  session_id = session;
  token_hash = hash;
  expires_at = expires;
  revoked_at = none;
  created_at = now;
}

-- createRefreshToken: `none` when the hash is taken or the session is gone
unfoldable pub create_refresh_token : ℕ → ℕ → ℕ → ℕ → String → ℕ → SessionDb → Option SessionDb
create_refresh_token now id user session hash expires db =
    if any_where (has_hash hash) db.tokens
    then none
    else if any_where (has_session_id session) db.sessions
    then some (record db { tokens = db.tokens ++ new_token now id user session hash expires ∷ [] })
    else none

-- updateSessionLastActive
abbrev pub active_now : ℕ → Session → Session
active_now now s = record s { last_active_at = now }

unfoldable pub update_session_last_active : ℕ → ℕ → SessionDb → SessionDb
update_session_last_active now id db = record db {
  sessions = update_where (has_session_id id) (active_now now) db.sessions;
}

-- revokeSession
unfoldable pub revoke_session_row : ℕ → ℕ → SessionDb → SessionDb
revoke_session_row now id db = record db {
  sessions = update_where (has_session_id id) (revoked_session now) db.sessions;
}

-- revokeRefreshTokensBySession
abbrev pub live_in_session : ℕ → RefreshToken → Bool
live_in_session session t = t.session_id == session && is_null t.revoked_at

unfoldable pub revoke_tokens_by_session : ℕ → ℕ → SessionDb → SessionDb
revoke_tokens_by_session now session db = record db {
  tokens = update_where (live_in_session session) (revoked_token now) db.tokens;
}

-- revokeAllUserSessions
abbrev pub live_session_of : ℕ → Session → Bool
live_session_of user s = s.user_id == user && is_null s.revoked_at

unfoldable pub revoke_all_user_sessions : ℕ → ℕ → SessionDb → SessionDb
revoke_all_user_sessions now user db = record db {
  sessions = update_where (live_session_of user) (revoked_session now) db.sessions;
}

-- revokeAllUserRefreshTokens
abbrev pub live_token_of : ℕ → RefreshToken → Bool
live_token_of user t = t.user_id == user && is_null t.revoked_at

unfoldable pub revoke_all_user_refresh_tokens : ℕ → ℕ → SessionDb → SessionDb
revoke_all_user_refresh_tokens now user db = record db {
  tokens = update_where (live_token_of user) (revoked_token now) db.tokens;
}
