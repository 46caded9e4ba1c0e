-- ===== src/Mfa/Model.antt =====
-- The rows of mfa_backup_codes beside the tables of sessions, and the statements of
-- services/auth/internal/store/mfa.sql.go and sessions.sql.go that a login with a backup code sends.
use zagforge_mvp.Prelude.{
  ℕ, String, Bool, ◌&&◌, Option, none, some, List, [], ◌∷◌, ◌++◌, ◌==◌, update_where, select_where,
}
use zagforge_mvp.Sessions.Model.{Session, SessionDb}
use zagforge_mvp.Sessions.Queries.{is_null}

pub record MfaBackupCode : Type 0 where
  pub id : ℕ
  pub user_id : ℕ
  pub code_hash : String
  pub used_at : Option ℕ
  pub created_at : ℕ

pub record MfaDb : Type 0 where
  pub codes : List MfaBackupCode
  pub store : SessionDb

abbrev pub unused_of : ℕ → MfaBackupCode → Bool
unused_of user c = c.user_id == user && is_null c.used_at

-- listUnusedBackupCodes; the statement fixes no order, the rows stand in the one it gives
unfoldable pub list_unused_backup_codes : ℕ → MfaDb → List MfaBackupCode
list_unused_backup_codes user db = select_where (unused_of user) db.codes

abbrev pub has_code_id : ℕ → MfaBackupCode → Bool
has_code_id id c = c.id == id

abbrev pub used_now : ℕ → MfaBackupCode → MfaBackupCode
used_now now c = record c { used_at = some now }

-- markBackupCodeUsed
unfoldable pub mark_backup_code_used : ℕ → ℕ → MfaDb → MfaDb
mark_backup_code_used now id db = record db {
  codes = update_where (has_code_id id) (used_now now) db.codes;
}

abbrev pub new_session : ℕ → ℕ → ℕ → ℕ → Session
new_session now id user expires = record {
  id = id;
  user_id = user;
  last_active_at = now;
  expires_at = expires;
  revoked_at = none;
  created_at = now;
}

-- createSession
unfoldable pub create_session : ℕ → ℕ → ℕ → ℕ → SessionDb → SessionDb
create_session now id user expires db = record db {
  sessions = db.sessions ++ new_session now id user expires ∷ [];
}

pub data Query : Type 0 where
  list_codes mark_used get_user insert_session generate_token create_token : Query

abbrev pub Faults : Type 0
Faults = Query → Bool
