-- ===== src/Mfa/Backup/Outcome.antt =====
-- How a login with a backup code ends.
use zagforge_mvp.Prelude.{ℕ, ◌≤◌, String, ◌≡◌, Option, some, arith, find}
use zagforge_mvp.Prelude.Outcome.{
  Ensures, Ensures-pure, Ensures-stop_if, Ensures-stop_unless, Ensures-get, Ensures-modify,
  Ensures-require, run_meets,
}
use zagforge_mvp.Sessions.Model.{SessionDb}
use zagforge_mvp.Mfa.Model.{MfaBackupCode, MfaDb, list_unused_backup_codes}
use zagforge_mvp.Mfa.Backup.{
  BackupVerifyRequest, MfaErr, invalid_body, validation, invalid_token, invalid_backup, internal,
  MfaReply, rejected, logged_in, MfaEnv, verifies, mark, with_session, with_token, in_store,
  issue_tokens, verify_steps, backup_code_verify,
}

-- the challenge is one for the user, and `code` is the first unused code of the user that the text
-- verifies
pub record Matched (env : MfaEnv) (body : Option BackupVerifyRequest) (db : MfaDb) (user : ℕ)
    (code : MfaBackupCode) : Type 0 where
  pub req : BackupVerifyRequest
  pub subject : String
  pub decoded : body ≡ some req
  pub issued_for : env.challenged req.mfa_token ≡ some subject
  pub scanned : env.scan_uuid subject ≡ some user
  pub found : find (verifies env req.code) (list_unused_backup_codes user db) ≡ some code

pub data VerifyOutcome (env : MfaEnv) (body : Option BackupVerifyRequest) (db : MfaDb)
    : MfaReply → MfaDb → Type 0 where
  refused : (code : ℕ) (e : MfaErr) → 400 ≤ code → VerifyOutcome env body db (rejected code e) db
  only_marked :
      (user : ℕ) (c : MfaBackupCode)
      → Matched env body db user c
      → VerifyOutcome env body db (rejected 500 internal) (mark env c.id db)
  only_session :
      (user : ℕ) (c : MfaBackupCode)
      → Matched env body db user c
      → VerifyOutcome env body db
          (rejected 500 internal)
          (in_store env (with_session env user) (mark env c.id db))
  not_issued :
      (user : ℕ) (c : MfaBackupCode) (store : SessionDb)
      → Matched env body db user c
      → with_token env user (with_session env user (mark env c.id db).store) ≡ some store
      → VerifyOutcome env body db
          (rejected 500 internal)
          (in_store env (λ _. store) (mark env c.id db))
  verified :
      (user : ℕ) (c : MfaBackupCode) (store : SessionDb) (access : String)
      → Matched env body db user c
      → with_token env user (with_session env user (mark env c.id db).store) ≡ some store
      → env.access_token user ≡ some access
      → VerifyOutcome env body db
          (logged_in access env.random_token)
          (in_store env (λ _. store) (mark env c.id db))

module _ (env : MfaEnv) (body : Option BackupVerifyRequest) (db : MfaDb) where
  issue_tokens-Ensures :
      (user : ℕ) (c : MfaBackupCode)
      → Matched env body db user c
      → Ensures
          (VerifyOutcome env body db)
          (VerifyOutcome env body db)
          (issue_tokens env user)
          (mark env c.id db)
  unfolding issue_tokens
  issue_tokens-Ensures user c m =
      Ensures-stop_if _ _ _ _ (λ _. only_marked user c m)
        (λ _.
          Ensures-stop_if _ _ _ _ (λ _. only_marked user c m)
            (λ _. Ensures-modify _ _ _ (
              Ensures-stop_if _ _ _ _ (λ _. only_session user c m)
                (λ _.
                  Ensures-stop_if _ _ _ _ (λ _. only_session user c m)
                    (λ _. Ensures-get _ _ (
                      Ensures-require _ _ _ _ (λ _. only_session user c m)
                        (λ store made. Ensures-modify _ _ _ (
                          Ensures-require _ _ _ _ (λ _. not_issued user c store m made)
                            (λ access issued.
                              Ensures-pure _ _ (verified user c store access m made issued))))))))))

  -- Whatever fails, a login with a backup code ends in one of five ways: it is refused with a code
  -- from 400 on and nothing is written; or the challenge was one for a user and the text verified an
  -- unused code of that user, the first such code was marked as used (unless that statement failed),
  -- and then the answer is 500 with nothing more written, with a new session only, or with a new
  -- session and its refresh token, or it has an access token and the refresh token of a new session
  -- of the user.
  pub verify-outcome :
      VerifyOutcome env body db
        (backup_code_verify env body db).0
        (backup_code_verify env body db).1
  unfolding backup_code_verify verify_steps
  verify-outcome = run_meets {E = VerifyOutcome env body db} (verify_steps env body) db (
      Ensures-require _ _ _ _ (λ _. refused 400 invalid_body (omega arith))
        (λ req decoded.
          Ensures-stop_unless _ _ _ _ (λ _. refused 400 validation (omega arith))
            (λ _.
              Ensures-require _ _ _ _ (λ _. refused 401 invalid_token (omega arith))
                (λ subject issued_for.
                  Ensures-require _ _ _ _ (λ _. refused 400 invalid_token (omega arith))
                    (λ user scanned.
                      Ensures-stop_if _ _ _ _ (λ _. refused 500 internal (omega arith))
                        (λ _. Ensures-get _ _ (
                          Ensures-require _ _ _ _ (λ _. refused 401 invalid_backup (omega arith))
                            (λ code found. Ensures-modify _ _ _ (
                              issue_tokens-Ensures user code (record {
                                req = req;
                                subject = subject;
                                decoded = decoded;
                                issued_for = issued_for;
                                scanned = scanned;
                                found = found;
                              }))))))))))
