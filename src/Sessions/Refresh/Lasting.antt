-- ===== src/Sessions/Refresh/Lasting.antt =====
-- A revoked token stays revoked through a refresh.
use zagforge_mvp.Prelude.{ℕ, String, refl}
use zagforge_mvp.Prelude.FlowLaws.{
  Leaves, Leaves-pure, Leaves-stop_if, Leaves-get, Leaves-modify, Leaves-require, at-run,
}
use zagforge_mvp.Sessions.Model.{RefreshToken, SessionDb}
use zagforge_mvp.Sessions.Queries.{revoke_refresh_token, update_session_last_active}
use zagforge_mvp.Sessions.Refresh.{RefreshEnv, revoke_old, touch, rotate, refresh_steps, refresh}
use zagforge_mvp.Sessions.Spent.{
  Spent, Spent-same_tokens, Spent-create_refresh_token, Spent-unless, Spent-revoke_refresh_token,
}

module _ {hash : String} where
  Spent-revoke_old :
      (env : RefreshEnv) (id : ℕ) (db : SessionDb)
      → Spent hash db
      → Spent hash (revoke_old env id db)
  unfolding revoke_old
  Spent-revoke_old env id db s =
      Spent-unless _ (revoke_refresh_token env.now id) db (Spent-revoke_refresh_token env.now id) s

  Spent-touch :
      (env : RefreshEnv) (id : ℕ) (db : SessionDb) → Spent hash db → Spent hash (touch env id db)
  unfolding touch update_session_last_active
  Spent-touch env id db s =
      Spent-unless _ (update_session_last_active env.now id) db (λ d. Spent-same_tokens d _ refl) s

  rotate-Spent :
      (env : RefreshEnv) (rt : RefreshToken) (db : SessionDb)
      → Spent hash db
      → Leaves (Spent hash) (rotate env rt) db
  unfolding rotate
  rotate-Spent env rt db s =
      let old = Spent-revoke_old env rt.id db s in
      Leaves-modify _ _ _ (
        Leaves-stop_if _ _ _ _ old (λ _. Leaves-stop_if _ _ _ _ old (λ _. Leaves-get _ _ (
          Leaves-require _ _ _ _ old (λ d made.
            let new =
              Spent-touch env rt.session_id d
                (Spent-create_refresh_token _ _ _ _ _ _ _ d made old) in
            Leaves-modify _ _ _ (
              Leaves-modify _ _ _ (
                Leaves-stop_if _ _ _ _ new
                  (λ _. Leaves-require _ _ _ _ new (λ access _. Leaves-pure _ _ new)))))))))

  pub refresh-Spent :
      (env : RefreshEnv) (raw : String) (db : SessionDb)
      → Spent hash db
      → Spent hash (refresh env raw db).1
  unfolding refresh refresh_steps
  refresh-Spent env raw db s = at-run (refresh_steps env raw) db (
      Leaves-stop_if _ _ _ _ s (λ _. Leaves-stop_if _ _ _ _ s (λ _. Leaves-get _ _ (
        Leaves-require _ _ _ _ s (λ rt _. Leaves-stop_if _ _ _ _ s (λ _.
          Leaves-stop_if _ _ _ _ s (λ _.
            Leaves-require _ _ _ _ s
              (λ sess _. Leaves-stop_if _ _ _ _ s (λ _. rotate-Spent env rt db s)))))))))
