-- ===== src/Sessions/Spent.antt =====
-- A revoked token stays revoked through every statement.
use zagforge_mvp.Prelude.{
  ℕ, String, ◌≡◌, refl, ◌∙◌, ap, Bool, true, false, some, arith, if◌then◌else◌, update_where,
}
use zagforge_mvp.Sessions.Model.{RefreshToken, SessionDb}
use zagforge_mvp.Sessions.Queries.{
  is_null, revoked_token, get_refresh_token_by_hash, revoke_refresh_token, create_refresh_token,
  revoke_session_row, revoke_tokens_by_session, revoke_all_user_sessions,
  revoke_all_user_refresh_tokens,
}
use zagforge_mvp.Sessions.Stored.{
  map_token, find_hash-update_where, get_refresh_token_by_hash-create_refresh_token,
}

-- the hash finds a token that is revoked
pub record Spent (hash : String) (db : SessionDb) : Type 0 where
  pub token : RefreshToken
  pub stored : get_refresh_token_by_hash hash db ≡ some token
  pub over : is_null token.revoked_at ≡ false

module _ {hash : String} where
  pub Spent-revoke_where :
      (now : ℕ) (q : RefreshToken → Bool) (db : SessionDb)
      → Spent hash db
      → Spent hash (record db { tokens = update_where q (revoked_token now) db.tokens })
  unfolding get_refresh_token_by_hash
  Spent-revoke_where now q db s =
      let after : RefreshToken → RefreshToken = λ t. if q t then revoked_token now t else t in
      record {
        token = after s.token;
        stored =
            find_hash-update_where hash q (revoked_token now) db.tokens (λ t. refl)
            ∙ ap (map_token after) s.stored;
        over = ground (arith, s.over);
      }

  -- a write that touches the sessions only
  pub Spent-same_tokens : (db d : SessionDb) → d.tokens ≡ db.tokens → Spent hash db → Spent hash d
  unfolding get_refresh_token_by_hash
  Spent-same_tokens db d same s = record {
    token = s.token;
    stored = rw same s.stored;
    over = s.over;
  }

  pub Spent-create_refresh_token :
      (now id user session : ℕ) (new_hash : String) (expires : ℕ) (db d : SessionDb)
      → create_refresh_token now id user session new_hash expires db ≡ some d
      → Spent hash db
      → Spent hash d
  Spent-create_refresh_token now id user session new_hash expires db d made s = record {
    token = s.token;
    stored =
        get_refresh_token_by_hash-create_refresh_token hash now id user session new_hash expires db
          d s.stored made;
    over = s.over;
  }

  pub Spent-unless :
      (failed : Bool) (f : SessionDb → SessionDb) (db : SessionDb)
      → ((d : SessionDb) → Spent hash d → Spent hash (f d))
      → Spent hash db
      → Spent hash (if failed then db else f db)
  Spent-unless true f db h s = s
  Spent-unless false f db h s = h db s

  pub Spent-revoke_refresh_token :
      (now id : ℕ) (db : SessionDb) → Spent hash db → Spent hash (revoke_refresh_token now id db)
  unfolding revoke_refresh_token
  Spent-revoke_refresh_token now id db s = Spent-revoke_where now _ db s

  pub Spent-revoke_session_row :
      (now id : ℕ) (db : SessionDb) → Spent hash db → Spent hash (revoke_session_row now id db)
  unfolding revoke_session_row
  Spent-revoke_session_row now id db s = Spent-same_tokens db _ refl s

  pub Spent-revoke_tokens_by_session :
      (now id : ℕ) (db : SessionDb)
      → Spent hash db
      → Spent hash (revoke_tokens_by_session now id db)
  unfolding revoke_tokens_by_session
  Spent-revoke_tokens_by_session now id db s = Spent-revoke_where now _ db s

  pub Spent-revoke_all_user_refresh_tokens :
      (now user : ℕ) (db : SessionDb)
      → Spent hash db
      → Spent hash (revoke_all_user_refresh_tokens now user db)
  unfolding revoke_all_user_refresh_tokens
  Spent-revoke_all_user_refresh_tokens now user db s = Spent-revoke_where now _ db s

  pub Spent-revoke_all_user_sessions :
      (now user : ℕ) (db : SessionDb)
      → Spent hash db
      → Spent hash (revoke_all_user_sessions now user db)
  unfolding revoke_all_user_sessions
  Spent-revoke_all_user_sessions now user db s = Spent-same_tokens db _ refl s
