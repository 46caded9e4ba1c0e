-- ===== src/Mfa/Backup.antt =====
-- Handler.BackupCodeVerify and issueTokens of services/auth/internal/handler/mfa/challenge.go. The audit
-- entry of a login is not written to these tables.
pub mod Outcome
pub mod Spending
mod Tests
use zagforge_mvp.Prelude.{
  ℕ, ◌+◌, String, Bool, true, false, ◌&&◌, not, Option, none, some, List, str_eq, if◌then◌else◌,
  find,
}
use zagforge_mvp.Prelude.Flow.{
  Act, ◌>>=◌, ◌>>◌, pure, stop_if, stop_unless, get, require, modify, run,
}
use zagforge_mvp.Sessions.Model.{SessionDb}
use zagforge_mvp.Sessions.Queries.{create_refresh_token}
use zagforge_mvp.Mfa.Model.{
  MfaBackupCode, MfaDb, Faults, list_codes, mark_used, get_user, insert_session, generate_token,
  create_token, list_unused_backup_codes, mark_backup_code_used, create_session,
}

pub record BackupVerifyRequest : Type 0 where
  pub mfa_token : String
  pub code : String

pub data MfaErr : Type 0 where
  invalid_body validation invalid_token invalid_backup internal : MfaErr

-- the new refresh token goes into a cookie, the access token into the body
pub data MfaReply : Type 0 where
  rejected : ℕ → MfaErr → MfaReply
  logged_in : (access refresh : String) → MfaReply

-- One call's environment: the failing statements, the clock, the fresh ids and random token, the
-- lifetimes, the user that a challenge token was issued for, the UUID scanner, bcrypt's comparison
-- of a text with a hash, SHA-256, and the access token that is issued for a user.
pub record MfaEnv : Type 0 where
  pub fails : Faults
  pub now : ℕ
  pub new_session_id : ℕ
  pub new_token_id : ℕ
  pub random_token : String
  pub ttl : ℕ
  pub max_age : ℕ
  pub challenged : String → Option String
  pub scan_uuid : String → Option ℕ
  pub compare_hash : (hash plain : String) → Bool
  pub hash_token : String → String
  pub access_token : ℕ → Option String

-- `validate:"required"` on both fields
abbrev pub backup_verify_valid : BackupVerifyRequest → Bool
backup_verify_valid req = not (str_eq req.mfa_token "") && not (str_eq req.code "")

module _ (env : MfaEnv) where
  open env use {
    fails, now, new_session_id, new_token_id, random_token, ttl, max_age, challenged, scan_uuid,
    compare_hash, hash_token, access_token,
  }

  -- the body of the loop over the codes: VerifyBackupCode gives no error
  abbrev pub verifies : String → MfaBackupCode → Bool
  verifies plain c = compare_hash c.code_hash plain

  -- `_ = h.db.Queries.MarkBackupCodeUsed(…)`
  unfoldable pub mark : ℕ → MfaDb → MfaDb
  mark id db = if fails mark_used then db else mark_backup_code_used now id db

  -- sessionSvc.Create
  abbrev pub with_session : ℕ → SessionDb → SessionDb
  with_session user s = create_session now new_session_id user (now + max_age) s

  -- the refresh token of the new session
  abbrev pub with_token : ℕ → SessionDb → Option SessionDb
  with_token user s =
      create_refresh_token now new_token_id user new_session_id (hash_token random_token)
        (now + ttl) s

  abbrev pub in_store : (SessionDb → SessionDb) → MfaDb → MfaDb
  in_store f db = record db { store = f db.store }

  issue_tokens : ℕ → Act MfaDb MfaReply MfaReply
  issue_tokens user = do
    stop_if (fails get_user) (rejected 500 internal)
    stop_if (fails insert_session) (rejected 500 internal)
    modify (in_store (with_session user))
    stop_if (fails generate_token) (rejected 500 internal)
    stop_if (fails create_token) (rejected 500 internal)
    db ← get
    store ← require (with_token user db.store) (rejected 500 internal)
    modify (in_store (λ _. store))
    access ← require (access_token user) (rejected 500 internal)
    pure (logged_in access random_token)

  verify_steps : Option BackupVerifyRequest → Act MfaDb MfaReply MfaReply
  verify_steps body = do
    req ← require body (rejected 400 invalid_body)
    stop_unless (backup_verify_valid req) (rejected 400 validation)
    subject ← require (challenged req.mfa_token) (rejected 401 invalid_token)
    user ← require (scan_uuid subject) (rejected 400 invalid_token)
    stop_if (fails list_codes) (rejected 500 internal)
    db ← get
    code ←
        require (find (verifies req.code) (list_unused_backup_codes user db))
          (rejected 401 invalid_backup)
    modify (mark code.id)
    issue_tokens user

  pub backup_code_verify : Option BackupVerifyRequest → MfaDb → MfaReply × MfaDb
  backup_code_verify body = run (verify_steps body)
