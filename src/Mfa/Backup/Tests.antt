-- ===== src/Mfa/Backup/Tests.antt =====
-- A user with two backup codes: a login with one of them, the same again, and a wrong code.
use Prim.Native.String.{◌++◌}
use zagforge_mvp.Prelude.{
  ℕ, suc, ◌≤◌, String, ◌≡◌, refl, true, false, none, some, [], ◌∷◌, str_eq, count_where,
}
use zagforge_mvp.Prelude.Flow.{◌>>=◌, run}
use zagforge_mvp.Sessions.Model.{SessionDb}
use zagforge_mvp.Sessions.Queries.{create_refresh_token}
use zagforge_mvp.Mfa.Model.{
  MfaBackupCode, MfaDb, unused_of, list_unused_backup_codes, mark_backup_code_used, create_session,
}
use zagforge_mvp.Mfa.Backup.{
  BackupVerifyRequest, MfaEnv, mark, issue_tokens, verify_steps, backup_code_verify,
}
use zagforge_mvp.Mfa.Backup.Spending.{is_logged_in, verify-spends}

abbrev code : ℕ → String → MfaBackupCode
code id hash = record { id = id; user_id = 1; code_hash = hash; used_at = none; created_at = 5 }

abbrev no_rows : SessionDb
no_rows = record { sessions = []; tokens = [] }

abbrev db : MfaDb
db = record { codes = code 30 "bcrypt:aaaa" ∷ code 31 "bcrypt:bbbb" ∷ []; store = no_rows }

abbrev env : MfaEnv
env = record {
  fails = λ q. false;
  now = 50;
  new_session_id = 20;
  new_token_id = 100;
  random_token = "r1";
  ttl = 8000;
  max_age = 9000;
  challenged = λ t. some "one";
  scan_uuid = λ s. some 1;
  compare_hash = λ hash plain. str_eq hash ("bcrypt:" ++ plain);
  hash_token = λ s. "sha:" ++ s;
  access_token = λ user. some "jwt";
}

abbrev with_code : String → BackupVerifyRequest
with_code s = record { mfa_token = "mfa"; code = s }

lets_in : is_logged_in (backup_code_verify env (some (with_code "bbbb")) db).0 ≡ true
unfolding backup_code_verify verify_steps issue_tokens mark list_unused_backup_codes
    mark_backup_code_used create_session create_refresh_token run ◌>>=◌
lets_in = refl

verify-spends_example :
    suc (count_where (unused_of 1) (backup_code_verify env (some (with_code "bbbb")) db).1.codes)
    ≤ count_where (unused_of 1) db.codes
verify-spends_example = verify-spends env (with_code "bbbb") 1 db refl ("one", refl, refl) lets_in
