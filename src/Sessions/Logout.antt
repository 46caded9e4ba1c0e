-- ===== src/Sessions/Logout.antt =====
-- Handler.Logout, LogoutAll and RevokeSession of services/auth/internal/handler/session/logout.go and
-- sessions.go. The audit entry of LogoutAll is not written to these tables.
pub mod Closing
pub mod Lasting
pub mod Tests
use zagforge_mvp.Prelude.{ℕ, String, Bool, false, Option, none, some, ◌==◌, if◌then◌else◌}
use zagforge_mvp.Prelude.Flow.{
  Act, ◌>>=◌, ◌>>◌, pure, stop_if, stop_unless, get, require, modify, run,
}
use zagforge_mvp.Sessions.Model.{
  RefreshToken, Session, SessionDb, Faults, get_refresh_token, get_session, revoke_token,
  revoke_session as revoke_row, revoke_session_tokens, revoke_user_sessions, revoke_user_tokens,
}
use zagforge_mvp.Sessions.Queries.{
  get_refresh_token_by_hash, get_session_by_id, revoke_refresh_token, revoke_session_row,
  revoke_tokens_by_session, revoke_all_user_sessions, revoke_all_user_refresh_tokens,
}

pub data LogoutErr : Type 0 where
  unauthorized invalid_user_id invalid_session_id session_not_found forbidden : LogoutErr

pub data LogoutReply : Type 0 where
  denied : ℕ → LogoutErr → LogoutReply
  done : String → LogoutReply

-- `_ = h.db.Queries.…`: a failing statement writes nothing and goes unnoticed
abbrev pub attempt : Bool → (SessionDb → SessionDb) → SessionDb → SessionDb
attempt failed f db = if failed then db else f db

module _ (fails : Faults) (now : ℕ) where
  -- the token of the cookie, if it is a stored one
  logout_token : Option RefreshToken → SessionDb → SessionDb
  logout_token none db = db
  logout_token (some t) db =
      attempt (fails revoke_row) (revoke_session_row now t.session_id)
        (attempt (fails revoke_token) (revoke_refresh_token now t.id) db)

  pub logout : (hash_token : String → String) → Option String → SessionDb → LogoutReply × SessionDb
  logout hash_token none db = (done "logged_out", db)
  logout hash_token (some cookie) db =
      if fails get_refresh_token
      then (done "logged_out", db)
      else (done "logged_out", logout_token (get_refresh_token_by_hash (hash_token cookie) db) db)

  -- `claims` is the user of the access token: `none` without one, `some none` with a bad subject
  logout_all_steps : Option (Option ℕ) → Act SessionDb LogoutReply LogoutReply
  logout_all_steps claims = do
    subject ← require claims (denied 401 unauthorized)
    user ← require subject (denied 400 invalid_user_id)
    modify (attempt (fails revoke_user_sessions) (revoke_all_user_sessions now user))
    modify (attempt (fails revoke_user_tokens) (revoke_all_user_refresh_tokens now user))
    pure (done "all_sessions_revoked")

  pub logout_all : Option (Option ℕ) → SessionDb → LogoutReply × SessionDb
  logout_all claims = run (logout_all_steps claims)

  -- a bad subject is the zero UUID, which no session has
  pub owns : Option ℕ → Session → Bool
  owns none s = false
  owns (some user) s = s.user_id == user

  revoke_steps : Option (Option ℕ) → Option ℕ → Act SessionDb LogoutReply LogoutReply
  revoke_steps claims session_param = do
    subject ← require claims (denied 401 unauthorized)
    id ← require session_param (denied 400 invalid_session_id)
    stop_if (fails get_session) (denied 404 session_not_found)
    db ← get
    sess ← require (get_session_by_id id db) (denied 404 session_not_found)
    stop_unless (owns subject sess) (denied 403 forbidden)
    modify (attempt (fails revoke_row) (revoke_session_row now id))
    modify (attempt (fails revoke_session_tokens) (revoke_tokens_by_session now id))
    pure (done "revoked")

  pub revoke_session : Option (Option ℕ) → Option ℕ → SessionDb → LogoutReply × SessionDb
  revoke_session claims session_param = run (revoke_steps claims session_param)
