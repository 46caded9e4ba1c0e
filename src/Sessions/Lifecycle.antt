-- ===== src/Sessions/Lifecycle.antt =====
-- Any sequence of the operations on sessions, as a step relation.
mod Tests
use zagforge_mvp.Prelude.{ℕ, String, ◌≡◌, true, false, Option, some}
use zagforge_mvp.Sessions.Model.{
  RefreshToken, SessionDb, Faults, revoke_token, revoke_user_tokens, revoke_session_tokens,
}
use zagforge_mvp.Sessions.Queries.{get_refresh_token_by_hash}
use zagforge_mvp.Sessions.Logout.Closing.{is_done, Spent-logout_all, Spent-revoke_session}
use zagforge_mvp.Sessions.Refresh.{RefreshEnv, refresh}
use zagforge_mvp.Sessions.Refresh.Outcome.{refresh-outcome}
use zagforge_mvp.Sessions.Refresh.Rotation.{Refused, is_renewed, revoked-Refused, stored_revoked}
use zagforge_mvp.Sessions.Refresh.Lasting.{refresh-Spent}
use zagforge_mvp.Sessions.Logout.{logout, logout_all, revoke_session}
use zagforge_mvp.Sessions.Logout.Lasting.{logout-Spent, logout_all-Spent, revoke_session-Spent}
use zagforge_mvp.Sessions.Spent.{Spent}

pub data SessionStep : SessionDb → SessionDb → Type 0 where
  refreshing :
      (env : RefreshEnv) (raw : String) (db : SessionDb) → SessionStep db (refresh env raw db).1
  logging_out :
      (fails : Faults) (now : ℕ) (hash_token : String → String) (cookie : Option String)
      (db : SessionDb)
      → SessionStep db (logout fails now hash_token cookie db).1
  logging_out_all :
      (fails : Faults) (now : ℕ) (claims : Option (Option ℕ)) (db : SessionDb)
      → SessionStep db (logout_all fails now claims db).1
  revoking_session :
      (fails : Faults) (now : ℕ) (claims : Option (Option ℕ)) (session_param : Option ℕ)
      (db : SessionDb)
      → SessionStep db (revoke_session fails now claims session_param db).1

pub data Follows (db : SessionDb) : SessionDb → Type 0 where
  unchanged : Follows db db
  step : {mid last : SessionDb} → Follows db mid → SessionStep mid last → Follows db last

SessionStep-Spent :
    {hash : String} {db d : SessionDb} → SessionStep db d → Spent hash db → Spent hash d
SessionStep-Spent (refreshing env raw db) s = refresh-Spent env raw db s
SessionStep-Spent (logging_out fails now hash_token cookie db) s =
    logout-Spent fails now hash_token cookie db s
SessionStep-Spent (logging_out_all fails now claims db) s = logout_all-Spent fails now claims db s
SessionStep-Spent (revoking_session fails now claims session_param db) s =
    revoke_session-Spent fails now claims session_param db s

Follows-Spent : {hash : String} {db d : SessionDb} → Follows db d → Spent hash db → Spent hash d
Follows-Spent unchanged s = s
Follows-Spent (step r st) s = SessionStep-Spent st (Follows-Spent r s)

-- the old token right after the rotation
rotated-Spent :
    (env : RefreshEnv) (raw : String) (db : SessionDb)
    → env.fails revoke_token ≡ false
    → is_renewed (refresh env raw db).0 ≡ true
    → Spent (env.hash_token raw) (refresh env raw db).1
rotated-Spent env raw db works yes_new =
    let (t, stored, over) = stored_revoked (refresh-outcome env raw db) works yes_new in
    record { token = t; stored = stored; over = over }

-- A refresh token serves once: after a refresh that answered with new tokens and whose revocation
-- did not fail, and after any refreshes and logouts that follow, a refresh with the old token is
-- refused with a code from 400 on and writes nothing, if hashing the token again gives the same
-- text.
pub Follows-Refused :
    (env later : RefreshEnv) (raw : String) (db d : SessionDb)
    → env.fails revoke_token ≡ false
    → is_renewed (refresh env raw db).0 ≡ true
    → Follows (refresh env raw db).1 d
    → later.hash_token raw ≡ env.hash_token raw
    → Refused later raw d
Follows-Refused env later raw db d works yes_new after same =
    let s = Follows-Spent after (rotated-Spent env raw db works yes_new) in
    revoked-Refused later raw d {t = s.token} (rw same s.stored) s.over

-- what the hash of a revoked token is worth, however the operations go on
later_Refused :
    {db d : SessionDb} (env : RefreshEnv) (raw : String)
    → Spent (env.hash_token raw) db
    → Follows db d
    → Refused env raw d
later_Refused {d = d} env raw s after =
    let last = Follows-Spent after s in
    revoked-Refused env raw d {t = last.token} last.stored last.over

-- After a logout from everywhere whose revocation of the tokens does not fail, and after any
-- refreshes and logouts that follow, every refresh with a token of the user that was stored before
-- the logout is refused with a code from 400 on and writes nothing.
pub logout_all-Refused :
    (fails : Faults) (now user : ℕ) (db d : SessionDb) (env : RefreshEnv) (raw : String)
    (t : RefreshToken)
    → fails revoke_user_tokens ≡ false
    → get_refresh_token_by_hash (env.hash_token raw) db ≡ some t
    → t.user_id ≡ user
    → Follows (logout_all fails now (some (some user)) db).1 d
    → Refused env raw d
logout_all-Refused fails now user db d env raw t works stored his after =
    later_Refused env raw
      (Spent-logout_all fails now user db (env.hash_token raw) t works stored his) after

-- After a session is revoked, with no failure in revoking its tokens, and after any refreshes and
-- logouts that follow, every refresh with a token of the session that was stored before is refused
-- with a code from 400 on and writes nothing.
pub revoke_session-Refused :
    (fails : Faults) (now id : ℕ) (claims : Option (Option ℕ)) (db d : SessionDb) (env : RefreshEnv)
    (raw : String) (t : RefreshToken)
    → fails revoke_session_tokens ≡ false
    → is_done (revoke_session fails now claims (some id) db).0 ≡ true
    → get_refresh_token_by_hash (env.hash_token raw) db ≡ some t
    → t.session_id ≡ id
    → Follows (revoke_session fails now claims (some id) db).1 d
    → Refused env raw d
revoke_session-Refused fails now id claims db d env raw t works ok stored its after =
    later_Refused env raw
      (Spent-revoke_session fails now id claims db (env.hash_token raw) t works ok stored its) after
