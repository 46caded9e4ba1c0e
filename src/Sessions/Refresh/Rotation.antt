-- ===== src/Sessions/Refresh/Rotation.antt =====
-- The old token after a refresh.
use zagforge_mvp.Prelude.{
  ℕ, ◌+◌, ◌≤◌, String, ◌≡◌, refl, ◌∙◌, Bool, true, false, some, arith, Bool-cases, inl, inr, subst,
}
use zagforge_mvp.Sessions.Model.{RefreshToken, SessionDb, revoke_token, update_last_active}
use zagforge_mvp.Sessions.Queries.{
  is_null, revoked_token, get_refresh_token_by_hash, revoke_refresh_token, create_refresh_token,
}
use zagforge_mvp.Sessions.Stored.{
  get_refresh_token_by_hash-revoke_refresh_token, get_refresh_token_by_hash-create_refresh_token,
  get_refresh_token_by_hash-update_session_last_active,
}
use zagforge_mvp.Sessions.Refresh.{Err, Reply, refuse, renewed, RefreshEnv, revoke_old, refresh}
use zagforge_mvp.Sessions.Refresh.Outcome.{
  Accepted, Created, touched, RefreshOutcome, refused, only_revoked, not_issued, rotated,
  refresh-outcome,
}

-- refused with a code from 400 on, and nothing is written
abbrev pub Refused : RefreshEnv → String → SessionDb → Type 0
Refused env raw db =
    ((code : ℕ) × (e : Err) × ((refresh env raw db).0 ≡ refuse code e) × (400 ≤ code))
    × ((refresh env raw db).1 ≡ db)

abbrev RefusedAs : SessionDb → Reply → SessionDb → Type 0
RefusedAs db r d = ((code : ℕ) × (e : Err) × (r ≡ refuse code e) × (400 ≤ code)) × (d ≡ db)

-- an accepted token is not revoked
not_over :
    {env : RefreshEnv} {raw : String} {db : SessionDb} {rt t : RefreshToken}
    → Accepted env raw db rt
    → get_refresh_token_by_hash (env.hash_token raw) db ≡ some t
    → is_null t.revoked_at ≡ false
    → ⊥
not_over {rt = rt} {t = t} a stored over =
    let same : rt ≡ t = ground arith in
    let live : is_null rt.revoked_at ≡ true = ground (arith, a.live) in ground arith

over_refused :
    {env : RefreshEnv} {raw : String} {db : SessionDb} {r : Reply} {d : SessionDb}
    {t : RefreshToken}
    → RefreshOutcome env raw db r d
    → get_refresh_token_by_hash (env.hash_token raw) db ≡ some t
    → is_null t.revoked_at ≡ false
    → RefusedAs db r d
over_refused (refused code e le) stored over = ((code, e, refl, le), refl)
over_refused (only_revoked rt a) stored over = absurd (not_over a stored over)
over_refused (not_issued rt d a made) stored over = absurd (not_over a stored over)
over_refused (rotated rt d access a made issued) stored over = absurd (not_over a stored over)

-- a stored token that is revoked is refused
pub revoked-Refused :
    (env : RefreshEnv) (raw : String) (db : SessionDb) {t : RefreshToken}
    → get_refresh_token_by_hash (env.hash_token raw) db ≡ some t
    → is_null t.revoked_at ≡ false
    → Refused env raw db
revoked-Refused env raw db stored over = over_refused (refresh-outcome env raw db) stored over

-- the old token after the rotation
old_revoked :
    (env : RefreshEnv) (raw : String) (db d : SessionDb) {rt : RefreshToken}
    → env.fails revoke_token ≡ false
    → Accepted env raw db rt
    → Created env rt db d
    → get_refresh_token_by_hash (env.hash_token raw) (touched env rt.session_id d)
      ≡ some (revoked_token env.now rt)
unfolding revoke_old
old_revoked env raw db d {rt} works a made =
    let hash = env.hash_token raw in
    let mid = revoke_refresh_token env.now rt.id db in
    let same : revoke_old env rt.id db ≡ mid = ground arith in
    let made' =
      subst
        (λ x.
          create_refresh_token env.now env.new_id rt.user_id rt.session_id
            (env.hash_token env.random_token) (env.now + env.ttl) x
          ≡ some d)
        same made in
    let first = get_refresh_token_by_hash-revoke_refresh_token env.now hash db a.stored in
    let second =
      get_refresh_token_by_hash-create_refresh_token hash env.now env.new_id rt.user_id
        rt.session_id (env.hash_token env.random_token) (env.now + env.ttl) mid d first made' in
    elim (Bool-cases (env.fails update_last_active)) [
      | inl e ↦ rw e second
      | inr e ↦ rw e (
          get_refresh_token_by_hash-update_session_last_active hash env.now rt.session_id d
          ∙ second)
    ]

-- the answer has tokens
abbrev pub is_renewed : Reply → Bool
is_renewed (refuse code e) = false
is_renewed (renewed access token) = true

pub stored_revoked :
    {env : RefreshEnv} {raw : String} {db : SessionDb} {r : Reply} {d : SessionDb}
    → RefreshOutcome env raw db r d
    → env.fails revoke_token ≡ false
    → is_renewed r ≡ true
    → (t : RefreshToken) × (get_refresh_token_by_hash (env.hash_token raw) d ≡ some t)
      × (is_null t.revoked_at ≡ false)
stored_revoked (refused code e le) works yes_new = absurd (ground arith)
stored_revoked (only_revoked rt a) works yes_new = absurd (ground arith)
stored_revoked (not_issued rt d a made) works yes_new = absurd (ground arith)
stored_revoked {env} {raw} {db} (rotated rt d access a made issued) works yes_new =
    (revoked_token env.now rt, old_revoked env raw db d works a made, refl)
