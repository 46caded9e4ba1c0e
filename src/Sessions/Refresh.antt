-- ===== src/Sessions/Refresh.antt =====
-- Handler.Refresh of services/auth/internal/handler/session/refresh.go. `raw` is what
-- extractRefreshToken gives, the empty text when there is no token.
pub mod Outcome
pub mod Rotation
pub mod Lasting
pub mod Tests
use zagforge_mvp.Prelude.{
  ℕ, ◌+◌, String, Bool, true, false, not, ◌||◌, Option, none, some, str_eq, ltb, if◌then◌else◌,
}
use zagforge_mvp.Prelude.Flow.{Act, ◌>>=◌, ◌>>◌, pure, stop_if, get, require, modify, run}
use zagforge_mvp.Sessions.Model.{
  RefreshToken, Session, SessionDb, Faults, get_refresh_token, get_session, revoke_token,
  generate_token, create_token, update_last_active, get_user,
}
use zagforge_mvp.Sessions.Queries.{
  is_null, get_refresh_token_by_hash, get_session_by_id, revoke_refresh_token, create_refresh_token,
  update_session_last_active,
}

pub data Err : Type 0 where
  missing_refresh_token invalid_refresh_token refresh_token_expired session_expired internal : Err

-- the new refresh token goes into a cookie, the access token into the body and a cookie
pub data Reply : Type 0 where
  refuse : ℕ → Err → Reply
  renewed : (access refresh : String) → Reply

-- One call's environment: the failing statements, the clock, the fresh id and random token, the
-- lifetime of a refresh token, SHA-256, and the access token that is issued for a user, `none` when
-- that fails. Issuing reads the user, the organization claim and the MFA settings, and writes
-- nothing.
pub record RefreshEnv : Type 0 where
  pub fails : Faults
  pub now : ℕ
  pub new_id : ℕ
  pub random_token : String
  pub ttl : ℕ
  pub hash_token : String → String
  pub access_token : ℕ → Option String

-- `rt.RevokedAt.Valid || rt.ExpiresAt.Time.Before(time.Now())`
abbrev pub token_over : ℕ → RefreshToken → Bool
token_over now t = not (is_null t.revoked_at) || ltb t.expires_at now

abbrev pub session_over : ℕ → Session → Bool
session_over now s = not (is_null s.revoked_at) || ltb s.expires_at now

module _ (env : RefreshEnv) where
  open env use {fails, now, new_id, random_token, ttl, hash_token, access_token}

  -- a failing revocation is only logged
  pub revoke_old : ℕ → SessionDb → SessionDb
  revoke_old id db = if fails revoke_token then db else revoke_refresh_token now id db

  -- so is a failing update of the time of the last activity
  touch : ℕ → SessionDb → SessionDb
  touch id db = if fails update_last_active then db else update_session_last_active now id db

  -- revoke the old token, store the new one, then issue the access token
  rotate : RefreshToken → Act SessionDb Reply Reply
  rotate rt = do
    modify (revoke_old rt.id)
    stop_if (fails generate_token) (refuse 500 internal)
    stop_if (fails create_token) (refuse 500 internal)
    db ← get
    db' ←
        require
          (create_refresh_token now new_id rt.user_id rt.session_id (hash_token random_token)
            (now + ttl) db)
          (refuse 500 internal)
    modify (λ _. db')
    modify (touch rt.session_id)
    stop_if (fails get_user) (refuse 500 internal)
    access ← require (access_token rt.user_id) (refuse 500 internal)
    pure (renewed access random_token)

  refresh_steps : String → Act SessionDb Reply Reply
  refresh_steps raw = do
    stop_if (str_eq raw "") (refuse 400 missing_refresh_token)
    stop_if (fails get_refresh_token) (refuse 500 internal)
    db ← get
    rt ← require (get_refresh_token_by_hash (hash_token raw) db) (refuse 401 invalid_refresh_token)
    stop_if (token_over now rt) (refuse 401 refresh_token_expired)
    stop_if (fails get_session) (refuse 401 session_expired)
    sess ← require (get_session_by_id rt.session_id db) (refuse 401 session_expired)
    stop_if (session_over now sess) (refuse 401 session_expired)
    rotate rt

  pub refresh : String → SessionDb → Reply × SessionDb
  refresh raw = run (refresh_steps raw)
