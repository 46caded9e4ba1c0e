-- ===== src/Mfa/Backup/Spending.antt =====
-- A login uses up a backup code, and needs one.
use zagforge_mvp.Prelude.{
  ℕ, suc, ◌≤◌, String, ◌≡◌, refl, sym, Bool, true, false, Option, some, List, [], ◌∷◌, arith, find,
  select_where, update_where, count_where, any_where, count_where-update_where, ◌&&◌, ==_refl,
}
use zagforge_mvp.Mfa.Model.{
  MfaBackupCode, MfaDb, unused_of, has_code_id, used_now, mark_used, list_unused_backup_codes,
  mark_backup_code_used,
}
use zagforge_mvp.Mfa.Backup.{
  BackupVerifyRequest, MfaErr, MfaReply, rejected, logged_in, MfaEnv, verifies, mark,
  backup_code_verify,
}
use zagforge_mvp.Mfa.Backup.Outcome.{
  Matched, VerifyOutcome, refused, only_marked, only_session, not_issued, verified, verify-outcome,
}

-- an update that takes a selected row out of the selection leaves fewer
fewer_after :
    (p q r : MfaBackupCode → Bool) (f : MfaBackupCode → MfaBackupCode) (xs : List MfaBackupCode)
    {c : MfaBackupCode}
    → r c ≡ true
    → ((x : MfaBackupCode) → q (f x) ≡ false)
    → find p (select_where q xs) ≡ some c
    → suc (count_where q (update_where r f xs)) ≤ count_where q xs
fewer_after p q r f [] hit out h = absurd (ground arith)
fewer_after p q r f (x ∷ xs) {c} hit out h =
    let fewer = count_where-update_where q r f xs (λ y _ bad. absurd (ground (arith, out y))) in
    ground (arith, out x, fewer_after p q r f xs {c = c} hit out)

used_out : (now user : ℕ) (c : MfaBackupCode) → unused_of user (used_now now c) ≡ false
used_out now user c = ground arith

-- the answer has tokens
abbrev pub is_logged_in : MfaReply → Bool
is_logged_in (rejected code e) = false
is_logged_in (logged_in access refresh) = true

-- the user that the request's challenge token was issued for
abbrev pub Challenged : MfaEnv → BackupVerifyRequest → ℕ → Type 0
Challenged env req user =
    (subject : String) × (env.challenged req.mfa_token ≡ some subject)
    × (env.scan_uuid subject ≡ some user)

spent :
    (env : MfaEnv) (body : Option BackupVerifyRequest) (db : MfaDb) (user : ℕ) (c : MfaBackupCode)
    → env.fails mark_used ≡ false
    → Matched env body db user c
    → suc (count_where (unused_of user) (mark env c.id db).codes)
      ≤ count_where (unused_of user) db.codes
unfolding mark mark_backup_code_used list_unused_backup_codes
spent env body db user c works m = rw works (
    fewer_after (verifies env m.req.code) (unused_of user) (has_code_id c.id) (used_now env.now)
      db.codes {c = c} (==_refl c.id) (used_out env.now user) m.found)

same_user :
    {env : MfaEnv} {req : BackupVerifyRequest} {db : MfaDb} {user other : ℕ} {c : MfaBackupCode}
    → Matched env (some req) db other c
    → Challenged env req user
    → other ≡ user
same_user m (subject, known, scanned) = ground (arith, m.decoded, m.issued_for, m.scanned)

spends :
    {env : MfaEnv} {req : BackupVerifyRequest} {db : MfaDb} {user : ℕ} {r : MfaReply} {d : MfaDb}
    → VerifyOutcome env (some req) db r d
    → env.fails mark_used ≡ false
    → Challenged env req user
    → is_logged_in r ≡ true
    → suc (count_where (unused_of user) d.codes) ≤ count_where (unused_of user) db.codes
spends (refused code e le) works who yes_in = absurd (ground arith)
spends (only_marked other c m) works who yes_in = absurd (ground arith)
spends (only_session other c m) works who yes_in = absurd (ground arith)
spends (not_issued other c store m made) works who yes_in = absurd (ground arith)
spends {env} {req} {db} {user} (verified other c store access m made issued) works who yes_in =
    rw (sym (same_user m who)) (spent env (some req) db other c works m)

-- A login with a backup code uses one up: if the code could be marked, the user of the challenge has
-- at least one unused code fewer afterwards.
pub verify-spends :
    (env : MfaEnv) (req : BackupVerifyRequest) (user : ℕ) (db : MfaDb)
    → env.fails mark_used ≡ false
    → Challenged env req user
    → is_logged_in (backup_code_verify env (some req) db).0 ≡ true
    → suc (count_where (unused_of user) (backup_code_verify env (some req) db).1.codes)
      ≤ count_where (unused_of user) db.codes
verify-spends env req user db works who yes_in =
    spends (verify-outcome env (some req) db) works who yes_in

-- refused with a code from 400 on, and nothing is written
abbrev pub Rejected : MfaDb → MfaReply → MfaDb → Type 0
Rejected db r d = ((code : ℕ) × (e : MfaErr) × (r ≡ rejected code e) × (400 ≤ code)) × (d ≡ db)

-- an unused code of the user that the text verifies
abbrev pub opens : MfaEnv → BackupVerifyRequest → ℕ → MfaBackupCode → Bool
opens env req user c = verifies env req.code c && unused_of user c

no_match :
    (p q : MfaBackupCode → Bool) (xs : List MfaBackupCode) {c : MfaBackupCode}
    → any_where (λ x. p x && q x) xs ≡ false
    → find p (select_where q xs) ≡ some c
    → ⊥
no_match p q [] h k = ground arith
no_match p q (x ∷ xs) {c} h k = ground (arith, no_match p q xs {c = c})

unmatched :
    {env : MfaEnv} {req : BackupVerifyRequest} {db : MfaDb} {user other : ℕ} {c : MfaBackupCode}
    → Matched env (some req) db other c
    → Challenged env req user
    → any_where (opens env req user) db.codes ≡ false
    → ⊥
unfolding list_unused_backup_codes
unmatched {env} {req} {db} {user} {other} {c} m who none_opens =
    let same : req ≡ m.req = ground (arith, m.decoded) in
    let known : user ≡ other = sym (same_user m who) in
    let found : find (verifies env req.code) (select_where (unused_of user) db.codes) ≡ some c =
      rw same (rw known m.found) in
    no_match (verifies env req.code) (unused_of user) db.codes {c = c} none_opens found

rejects :
    {env : MfaEnv} {req : BackupVerifyRequest} {db : MfaDb} {user : ℕ} {r : MfaReply} {d : MfaDb}
    → VerifyOutcome env (some req) db r d
    → Challenged env req user
    → any_where (opens env req user) db.codes ≡ false
    → Rejected db r d
rejects (refused code e le) who none_opens = ((code, e, refl, le), refl)
rejects (only_marked other c m) who none_opens = absurd (unmatched m who none_opens)
rejects (only_session other c m) who none_opens = absurd (unmatched m who none_opens)
rejects (not_issued other c store m made) who none_opens = absurd (unmatched m who none_opens)
rejects (verified other c store access m made issued) who none_opens =
    absurd (unmatched m who none_opens)

-- If the text verifies no unused code of the user of the challenge, the login is refused with a code
-- from 400 on, and nothing is written: no code is marked, no session and no token are stored.
pub verify-Rejected :
    (env : MfaEnv) (req : BackupVerifyRequest) (user : ℕ) (db : MfaDb)
    → Challenged env req user
    → any_where (opens env req user) db.codes ≡ false
    → Rejected db (backup_code_verify env (some req) db).0 (backup_code_verify env (some req) db).1
verify-Rejected env req user db who none_opens =
    rejects (verify-outcome env (some req) db) who none_opens
