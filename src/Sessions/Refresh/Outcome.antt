-- ===== src/Sessions/Refresh/Outcome.antt =====
-- How a refresh ends.
use zagforge_mvp.Prelude.{ℕ, ◌+◌, ◌≤◌, String, ◌≡◌, false, some, arith, if◌then◌else◌}
use zagforge_mvp.Prelude.Outcome.{
  Ensures, Ensures-pure, Ensures-stop_if, Ensures-get, Ensures-modify, Ensures-require, run_meets,
}
use zagforge_mvp.Sessions.Model.{RefreshToken, Session, SessionDb, update_last_active}
use zagforge_mvp.Sessions.Queries.{
  get_refresh_token_by_hash, get_session_by_id, create_refresh_token, update_session_last_active,
}
use zagforge_mvp.Sessions.Refresh.{
  Err, missing_refresh_token, invalid_refresh_token, refresh_token_expired, session_expired,
  internal, Reply, refuse, renewed, RefreshEnv, token_over, session_over, revoke_old, touch, rotate,
  refresh_steps, refresh,
}

-- the token is stored, and neither it nor its session is revoked or expired
pub record Accepted (env : RefreshEnv) (raw : String) (db : SessionDb) (rt : RefreshToken)
    : Type 0 where
  pub sess : Session
  pub stored : get_refresh_token_by_hash (env.hash_token raw) db ≡ some rt
  pub live : token_over env.now rt ≡ false
  pub session_found : get_session_by_id rt.session_id db ≡ some sess
  pub session_live : session_over env.now sess ≡ false

-- `d` has the new token, from the tables where the old one was revoked
abbrev pub Created : RefreshEnv → RefreshToken → SessionDb → SessionDb → Type 0
Created env rt db d =
    create_refresh_token env.now env.new_id rt.user_id rt.session_id
      (env.hash_token env.random_token) (env.now + env.ttl) (revoke_old env rt.id db)
    ≡ some d

-- the time of the last activity, unless that statement failed
abbrev pub touched : RefreshEnv → ℕ → SessionDb → SessionDb
touched env id d =
    if env.fails update_last_active then d else update_session_last_active env.now id d

pub data RefreshOutcome (env : RefreshEnv) (raw : String) (db : SessionDb)
    : Reply → SessionDb → Type 0 where
  refused : (code : ℕ) (e : Err) → 400 ≤ code → RefreshOutcome env raw db (refuse code e) db
  only_revoked :
      (rt : RefreshToken)
      → Accepted env raw db rt
      → RefreshOutcome env raw db (refuse 500 internal) (revoke_old env rt.id db)
  not_issued :
      (rt : RefreshToken) (d : SessionDb)
      → Accepted env raw db rt
      → Created env rt db d
      → RefreshOutcome env raw db (refuse 500 internal) (touched env rt.session_id d)
  rotated :
      (rt : RefreshToken) (d : SessionDb) (access : String)
      → Accepted env raw db rt
      → Created env rt db d
      → env.access_token rt.user_id ≡ some access
      → RefreshOutcome env raw db (renewed access env.random_token) (touched env rt.session_id d)

module _ (env : RefreshEnv) (raw : String) (db : SessionDb) where
  rotate-Ensures :
      (rt : RefreshToken)
      → Accepted env raw db rt
      → Ensures (RefreshOutcome env raw db) (RefreshOutcome env raw db) (rotate env rt) db
  unfolding rotate touch
  rotate-Ensures rt a = Ensures-modify _ _ _ (
      Ensures-stop_if _ _ _ _ (λ _. only_revoked rt a)
        (λ _.
          Ensures-stop_if _ _ _ _ (λ _. only_revoked rt a)
            (λ _. Ensures-get _ _ (
              Ensures-require _ _ _ _ (λ _. only_revoked rt a)
                (λ d made. Ensures-modify _ _ _ (
                  Ensures-modify _ _ _ (
                    Ensures-stop_if _ _ _ _ (λ _. not_issued rt d a made)
                      (λ _.
                        Ensures-require _ _ _ _ (λ _. not_issued rt d a made)
                          (λ access issued.
                            Ensures-pure _ _ (rotated rt d access a made issued))))))))))

  -- Whatever fails, a refresh ends in one of four ways: it is refused and nothing is written; or
  -- the token and its session were valid and the old token was revoked (unless that statement
  -- failed), and then either no new token could be stored, or a new token of the same user and
  -- session was stored but no access token could be issued, or both were and the answer has them.
  pub refresh-outcome : RefreshOutcome env raw db (refresh env raw db).0 (refresh env raw db).1
  unfolding refresh refresh_steps
  refresh-outcome = run_meets {E = RefreshOutcome env raw db} (refresh_steps env raw) db (
      Ensures-stop_if _ _ _ _ (λ _. refused 400 missing_refresh_token (omega arith))
        (λ _.
          Ensures-stop_if _ _ _ _ (λ _. refused 500 internal (omega arith))
            (λ _. Ensures-get _ _ (
              Ensures-require _ _ _ _ (λ _. refused 401 invalid_refresh_token (omega arith))
                (λ rt stored.
                  Ensures-stop_if _ _ _ _ (λ _. refused 401 refresh_token_expired (omega arith))
                    (λ live.
                      Ensures-stop_if _ _ _ _ (λ _. refused 401 session_expired (omega arith))
                        (λ _.
                          Ensures-require _ _ _ _ (λ _. refused 401 session_expired (omega arith))
                            (λ sess found.
                              Ensures-stop_if _ _ _ _
                                (λ _. refused 401 session_expired (omega arith))
                                (λ session_live. rotate-Ensures rt (record {
                                  sess = sess;
                                  stored = stored;
                                  live = live;
                                  session_found = found;
                                  session_live = session_live;
                                }))))))))))
