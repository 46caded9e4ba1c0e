-- ===== src/Sessions/Logout/Closing.antt =====
-- What a logout and a revocation leave of the tokens.
use zagforge_mvp.Prelude.{
  ℕ, ◌≤◌, String, ◌≡◌, refl, sym, ◌∙◌, ap, Bool, true, false, Option, some, arith, if◌then◌else◌,
  ◌==◌, subst, Bool-cases, inl, inr,
}
use zagforge_mvp.Prelude.Outcome.{
  Ensures-pure, Ensures-stop_if, Ensures-stop_unless, Ensures-get, Ensures-modify, Ensures-require,
  run_meets,
}
use zagforge_mvp.Prelude.Flow.{◌>>=◌, run}
use zagforge_mvp.Sessions.Model.{
  RefreshToken, Session, SessionDb, Faults, revoke_session as revoke_row, revoke_session_tokens,
  revoke_user_sessions, revoke_user_tokens,
}
use zagforge_mvp.Sessions.Queries.{
  is_null, live_token_of, live_in_session, revoked_token, get_refresh_token_by_hash,
  get_session_by_id, revoke_session_row, revoke_tokens_by_session, revoke_all_user_sessions,
  revoke_all_user_refresh_tokens,
}
use zagforge_mvp.Sessions.Stored.{map_token, find_hash-update_where}
use zagforge_mvp.Sessions.Spent.{Spent}
use zagforge_mvp.Sessions.Logout.{
  LogoutErr, unauthorized, invalid_session_id, session_not_found, forbidden, LogoutReply, denied,
  done, attempt, logout_all_steps, logout_all, owns, revoke_steps, revoke_session,
}

-- a token of the user is revoked, any other is as it was
abbrev pub signed_out : ℕ → ℕ → RefreshToken → RefreshToken
signed_out now user t = if live_token_of user t then revoked_token now t else t

-- A logout from everywhere whose statements do not fail revokes the user's live tokens and no
-- other: under every hash there is the same token as before, revoked if it was a live one of the
-- user and untouched if not.
pub logout_all-exact :
    (fails : Faults) (now user : ℕ) (db : SessionDb) (hash : String)
    → fails revoke_user_tokens ≡ false
    → get_refresh_token_by_hash hash (logout_all fails now (some (some user)) db).1
      ≡ map_token (signed_out now user) (get_refresh_token_by_hash hash db)
unfolding logout_all logout_all_steps run ◌>>=◌ get_refresh_token_by_hash revoke_all_user_sessions
    revoke_all_user_refresh_tokens
logout_all-exact fails now user db hash works =
    let law =
      find_hash-update_where hash (live_token_of user) (revoked_token now) db.tokens (λ t. refl) in
    elim (Bool-cases (fails revoke_user_sessions)) [
      | inl e ↦ rw (works, e) law
      | inr e ↦ rw (works, e) law
    ]

signed_out_over :
    (now user : ℕ) (t : RefreshToken)
    → t.user_id ≡ user
    → is_null (signed_out now user t).revoked_at ≡ false
signed_out_over now user t h = ground arith

-- a stored token of the user after a logout from everywhere
pub Spent-logout_all :
    (fails : Faults) (now user : ℕ) (db : SessionDb) (hash : String) (t : RefreshToken)
    → fails revoke_user_tokens ≡ false
    → get_refresh_token_by_hash hash db ≡ some t
    → t.user_id ≡ user
    → Spent hash (logout_all fails now (some (some user)) db).1
Spent-logout_all fails now user db hash t works stored his = record {
  token = signed_out now user t;
  stored =
      logout_all-exact fails now user db hash works ∙ ap (map_token (signed_out now user)) stored;
  over = signed_out_over now user t his;
}

-- the two writes of a revocation
abbrev pub closed : Faults → ℕ → ℕ → SessionDb → SessionDb
closed fails now id db =
    attempt (fails revoke_session_tokens) (revoke_tokens_by_session now id)
      (attempt (fails revoke_row) (revoke_session_row now id) db)

pub data RevokeOutcome (fails : Faults) (now : ℕ) (claims : Option (Option ℕ))
    (session_param : Option ℕ) (db : SessionDb) : LogoutReply → SessionDb → Type 0 where
  not_revoked :
      (code : ℕ) (e : LogoutErr)
      → 400 ≤ code
      → RevokeOutcome fails now claims session_param db (denied code e) db
  was_revoked :
      (subject : Option ℕ) (id : ℕ) (sess : Session)
      → (claims ≡ some subject) × (session_param ≡ some id)
      → get_session_by_id id db ≡ some sess
      → owns fails now subject sess ≡ true
      → RevokeOutcome fails now claims session_param db (done "revoked") (closed fails now id db)

module _ (fails : Faults) (now : ℕ) (db : SessionDb) where
  revoke_session-outcome :
      (claims : Option (Option ℕ)) (session_param : Option ℕ)
      → RevokeOutcome fails now claims session_param db
          (revoke_session fails now claims session_param db).0
          (revoke_session fails now claims session_param db).1
  unfolding revoke_session revoke_steps
  revoke_session-outcome claims session_param =
      run_meets {E = RevokeOutcome fails now claims session_param db}
        (revoke_steps fails now claims session_param) db
        (Ensures-require _ _ _ _ (λ _. not_revoked 401 unauthorized (omega arith))
          (λ subject is_subject.
            Ensures-require _ _ _ _ (λ _. not_revoked 400 invalid_session_id (omega arith))
              (λ id is_id.
                Ensures-stop_if _ _ _ _ (λ _. not_revoked 404 session_not_found (omega arith))
                  (λ _. Ensures-get _ _ (
                    Ensures-require _ _ _ _ (λ _. not_revoked 404 session_not_found (omega arith))
                      (λ sess found.
                        Ensures-stop_unless _ _ _ _ (λ _. not_revoked 403 forbidden (omega arith))
                          (λ his. Ensures-modify _ _ _ (
                            Ensures-modify _ _ _ (
                              Ensures-pure _ _
                                (was_revoked subject id sess (is_subject, is_id) found his))))))))))

-- A user who asks to revoke a session of another user changes nothing.
pub revoke_session-foreign :
    (fails : Faults) (now user id : ℕ) (db : SessionDb) (sess : Session)
    → get_session_by_id id db ≡ some sess
    → (sess.user_id == user) ≡ false
    → (revoke_session fails now (some (some user)) (some id) db).1 ≡ db
unfolding owns
revoke_session-foreign fails now user id db sess found other =
    unchanged (revoke_session-outcome fails now db (some (some user)) (some id))
  where
    unchanged :
        {r : LogoutReply} {d : SessionDb}
        → RevokeOutcome fails now (some (some user)) (some id) db r d
        → d ≡ db
    unchanged (not_revoked code e le) = refl
    unchanged (was_revoked subject i s (is_subject, is_id) there his) =
        let same_id : i ≡ id = ground arith in
        let row : get_session_by_id id db ≡ some s = rw (sym same_id) there in
        let same : s ≡ sess = ground arith in
        let same_subject : subject ≡ some user = ground arith in
        let his' : owns fails now (some user) s ≡ true =
          subst (λ x. owns fails now x s ≡ true) same_subject his in
        absurd (ground arith)

get_refresh_token_by_hash-closed :
    (fails : Faults) (now id : ℕ) (db : SessionDb) (hash : String)
    → fails revoke_session_tokens ≡ false
    → get_refresh_token_by_hash hash (closed fails now id db)
      ≡ map_token
          (λ t. if live_in_session id t then revoked_token now t else t)
          (get_refresh_token_by_hash hash db)
unfolding get_refresh_token_by_hash revoke_tokens_by_session revoke_session_row
get_refresh_token_by_hash-closed fails now id db hash works =
    let law =
      find_hash-update_where hash (live_in_session id) (revoked_token now) db.tokens (λ t. refl) in
    elim (Bool-cases (fails revoke_row)) [ inl e ↦ rw (works, e) law | inr e ↦ rw (works, e) law ]

over_after_session :
    (now id : ℕ) (t : RefreshToken)
    → t.session_id ≡ id
    → is_null (if live_in_session id t then revoked_token now t else t).revoked_at ≡ false
over_after_session now id t h = ground arith

-- the answer is not an error
abbrev pub is_done : LogoutReply → Bool
is_done (denied code e) = false
is_done (done s) = true

-- a stored token of the session after its revocation
pub Spent-revoke_session :
    (fails : Faults) (now id : ℕ) (claims : Option (Option ℕ)) (db : SessionDb) (hash : String)
    (t : RefreshToken)
    → fails revoke_session_tokens ≡ false
    → is_done (revoke_session fails now claims (some id) db).0 ≡ true
    → get_refresh_token_by_hash hash db ≡ some t
    → t.session_id ≡ id
    → Spent hash (revoke_session fails now claims (some id) db).1
Spent-revoke_session fails now id claims db hash t works ok stored its =
    shut (revoke_session-outcome fails now db claims (some id)) ok
  where
    shut :
        {r : LogoutReply} {d : SessionDb}
        → RevokeOutcome fails now claims (some id) db r d
        → is_done r ≡ true
        → Spent hash d
    shut (not_revoked code e le) ok = absurd (ground arith)
    shut (was_revoked subject i s (is_subject, is_id) there his) ok =
        let same_id : i ≡ id = ground arith in
        let after : RefreshToken → RefreshToken =
          λ t. if live_in_session id t then revoked_token now t else t in
        rw same_id (record {
          token = after t;
          stored =
              get_refresh_token_by_hash-closed fails now id db hash works
              ∙ ap (map_token after) stored;
          over = over_after_session now id t its;
        })
