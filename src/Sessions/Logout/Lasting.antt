-- ===== src/Sessions/Logout/Lasting.antt =====
-- A revoked token stays revoked through a logout.
use zagforge_mvp.Prelude.{ℕ, String, Option, none, some, Bool-cases, inl, inr}
use zagforge_mvp.Prelude.FlowLaws.{
  Leaves-pure, Leaves-stop_if, Leaves-stop_unless, Leaves-get, Leaves-modify, Leaves-require,
  at-run,
}
use zagforge_mvp.Sessions.Model.{
  RefreshToken, SessionDb, Faults, get_refresh_token, revoke_session as revoke_row,
  revoke_session_tokens, revoke_user_sessions, revoke_user_tokens,
}
use zagforge_mvp.Sessions.Queries.{
  revoke_session_row, revoke_tokens_by_session, revoke_all_user_sessions,
  revoke_all_user_refresh_tokens,
}
use zagforge_mvp.Sessions.Logout.{
  logout_token, logout, logout_all_steps, logout_all, revoke_steps, revoke_session,
}
use zagforge_mvp.Sessions.Spent.{
  Spent, Spent-unless, Spent-revoke_refresh_token, Spent-revoke_session_row,
  Spent-revoke_tokens_by_session, Spent-revoke_all_user_refresh_tokens,
  Spent-revoke_all_user_sessions,
}

module _ {hash : String} where
  logout_token-Spent :
      (fails : Faults) (now : ℕ) (o : Option RefreshToken) (db : SessionDb)
      → Spent hash db
      → Spent hash (logout_token fails now o db)
  unfolding logout_token
  logout_token-Spent fails now none db s = s
  logout_token-Spent fails now (some t) db s =
      Spent-unless _ _ _ (Spent-revoke_session_row now t.session_id)
        (Spent-unless _ _ _ (Spent-revoke_refresh_token now t.id) s)

  pub logout-Spent :
      (fails : Faults) (now : ℕ) (hash_token : String → String) (cookie : Option String)
      (db : SessionDb)
      → Spent hash db
      → Spent hash (logout fails now hash_token cookie db).1
  unfolding logout
  logout-Spent fails now hash_token none db s = s
  logout-Spent fails now hash_token (some c) db s = elim (Bool-cases (fails get_refresh_token)) [
    | inl e ↦ rw e s
    | inr e ↦ rw e (logout_token-Spent fails now _ db s)
  ]

  pub logout_all-Spent :
      (fails : Faults) (now : ℕ) (claims : Option (Option ℕ)) (db : SessionDb)
      → Spent hash db
      → Spent hash (logout_all fails now claims db).1
  unfolding logout_all logout_all_steps
  logout_all-Spent fails now claims db s =
      at-run {P = Spent hash} (logout_all_steps fails now claims) db (
        Leaves-require _ _ _ _ s (λ subject _. Leaves-require _ _ _ _ s (λ user _.
          Leaves-modify _ _ _ (
            Leaves-modify _ _ _ (
              Leaves-pure _ _ (
                Spent-unless (fails revoke_user_tokens) (revoke_all_user_refresh_tokens now user) _
                  (Spent-revoke_all_user_refresh_tokens now user)
                  (Spent-unless (fails revoke_user_sessions) (revoke_all_user_sessions now user) db
                    (Spent-revoke_all_user_sessions now user) s)))))))

  pub revoke_session-Spent :
      (fails : Faults) (now : ℕ) (claims : Option (Option ℕ)) (session_param : Option ℕ)
      (db : SessionDb)
      → Spent hash db
      → Spent hash (revoke_session fails now claims session_param db).1
  unfolding revoke_session revoke_steps
  revoke_session-Spent fails now claims session_param db s =
      at-run {P = Spent hash} (revoke_steps fails now claims session_param) db (
        Leaves-require _ _ _ _ s (λ subject _. Leaves-require _ _ _ _ s (λ id _.
          Leaves-stop_if _ _ _ _ s (λ _. Leaves-get _ _ (
            Leaves-require _ _ _ _ s (λ sess _. Leaves-stop_unless _ _ _ _ s (λ _.
              Leaves-modify _ _ _ (
                Leaves-modify _ _ _ (
                  Leaves-pure _ _ (
                    Spent-unless (fails revoke_session_tokens) (revoke_tokens_by_session now id) _
                      (Spent-revoke_tokens_by_session now id)
                      (Spent-unless (fails revoke_row) (revoke_session_row now id) db
                        (Spent-revoke_session_row now id) s)))))))))))
