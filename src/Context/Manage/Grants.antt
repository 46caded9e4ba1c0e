-- ===== src/Context/Manage/Grants.antt =====
-- Which users a protected token lists after UpdateAllowedUsers.
use zagforge_mvp.Prelude.{
  ℕ, String, ◌≡◌, refl, sym, ap, ◌∙◌, subst, arith, Bool, true, false, ◌&&◌, ◌||◌, Option, none,
  some, List, [], ◌∷◌, ◌==◌, length, if◌then◌else◌, false≢true, Bool-cases, inl, inr, any_where,
  delete_where, any_where-append,
}
use zagforge_mvp.Prelude.Flow.{◌>>=◌, pure, require, stop_if, modify, run}
use zagforge_mvp.Context.Model.{AllowedUser, ContextDb, clear_allowed}
use zagforge_mvp.Context.Queries.{
  is_some_id, grant_of, grant_on, token_with_id, is_user_allowed_for_token,
  insert_context_token_allowed_user, replace_context_token_allowed_users,
}
use zagforge_mvp.Context.Manage.{
  ManageEnv, insert_parsed, insert_users, is_empty, update_allowed_steps, update_allowed_users,
}

-- the token and the user are rows of the database
abbrev pub both_there : ℕ → ℕ → ContextDb → Bool
both_there token user db =
    any_where (token_with_id token) db.tokens && any_where (λ u. u == user) db.users

-- a text of the request is the user's id
abbrev pub named : ManageEnv → ℕ → List String → Bool
named env user texts = any_where (λ s. is_some_id user (env.scan_uuid s)) texts

or_absorbs : (a w : Bool) → (w ≡ true → a ≡ true) → a ≡ (a || w)
or_absorbs true w h = refl
or_absorbs false true h = h refl
or_absorbs false false h = refl

or_false : (a b : Bool) → a ≡ (a || (b && false))
or_false a b = ground arith

-- the pair of an insert
same_pair :
    (t token u user : ℕ) (there : Bool)
    → ((t == token && there) && (user == u)) ≡ true
    → (t ≡ token) × (user ≡ u) × (there ≡ true)
same_pair t token u user there h = (ground arith, ground arith, ground arith)

-- the row that an insert appends, against the pair that is asked for
new_pair :
    (a : Bool) (t token u user : ℕ) (there : Bool)
    → (user ≡ u → there ≡ true)
    → (if a then true else (if token == t && user == u then true else false))
      ≡ (a || ((t == token && there) && (user == u)))
new_pair a t token u user there h = ground (arith, h)

module _ (env : ManageEnv) (ok : (n : ℕ) → env.insert_fails n ≡ false) (token : ℕ) where
  insert_parsed-tables :
      (o : Option ℕ) (db : ContextDb)
      → ((insert_parsed env false token o db).tokens ≡ db.tokens)
        × ((insert_parsed env false token o db).users ≡ db.users)
  unfolding insert_parsed insert_context_token_allowed_user
  insert_parsed-tables none db = (refl, refl)
  insert_parsed-tables (some user) db = elim (Bool-cases (both_there token user db)) [
    | inl there ↦ rw there (elim (Bool-cases (any_where (grant_of token user) db.allowed_users)) [
      | inl dup ↦ rw dup (refl, refl)
      | inr fresh ↦ rw fresh (refl, refl)
    ])
    | inr gone ↦ rw gone (refl, refl)
  ]

  insert_parsed-allowed :
      (o : Option ℕ) (t u : ℕ) (db : ContextDb)
      → is_user_allowed_for_token t u (insert_parsed env false token o db) ≡ (
          is_user_allowed_for_token t u db
          || ((t == token && both_there token u db) && is_some_id u o))
  unfolding insert_parsed insert_context_token_allowed_user is_user_allowed_for_token
  insert_parsed-allowed none t u db =
      or_false (any_where (grant_of t u) db.allowed_users) (t == token && both_there token u db)
  insert_parsed-allowed (some user) t u db = elim (Bool-cases (both_there token user db)) [
    | inl there ↦ rw there (elim (Bool-cases (any_where (grant_of token user) db.allowed_users)) [
      | inl dup ↦ rw dup (
          or_absorbs _ _ (λ w.
            let same = same_pair t token u user (both_there token u db) w in
            rw same.0 (rw (sym same.1) dup)))
      | inr fresh ↦ rw fresh (
          any_where-append (grant_of t u) db.allowed_users _
          ∙ new_pair (any_where (grant_of t u) db.allowed_users) t token u user
              (both_there token u db) (λ e. subst (λ v. both_there token v db ≡ true) e there))
    ])
    | inr gone ↦ rw gone (
        or_absorbs _ _ (λ w.
          let same = same_pair t token u user (both_there token u db) w in
          absurd (false≢true (sym gone ∙ ap (λ v. both_there token v db) same.1 ∙ same.2))))
  ]

  both_there-insert_parsed :
      (o : Option ℕ) (u : ℕ) (db : ContextDb)
      → both_there token u (insert_parsed env false token o db) ≡ both_there token u db
  both_there-insert_parsed o u db =
      rw (insert_parsed-tables o db).0 (rw (insert_parsed-tables o db).1 refl)

  insert_users-allowed :
      (texts : List String) (t u : ℕ) (db : ContextDb)
      → is_user_allowed_for_token t u (insert_users env token texts db) ≡ (
          is_user_allowed_for_token t u db
          || ((t == token && both_there token u db) && named env u texts))
  unfolding insert_users
  insert_users-allowed [] t u db =
      or_false (is_user_allowed_for_token t u db) (t == token && both_there token u db)
  insert_users-allowed (s ∷ rest) t u db = rw (ok (length rest)) (
      insert_users-allowed rest t u (insert_parsed env false token (env.scan_uuid s) db)
      ∙ rw (both_there-insert_parsed (env.scan_uuid s) u db) (
          rw (insert_parsed-allowed (env.scan_uuid s) t u db) (
            regroup (is_user_allowed_for_token t u db) (t == token && both_there token u db)
              (is_some_id u (env.scan_uuid s)) (named env u rest))))
    where
      regroup :
          (a c x y : Bool) → ((a || (c && x)) || (c && y)) ≡ (a || (c && (if x then true else y)))
      regroup a c x y = ground arith

any_where-delete_where :
    (token t u : ℕ) (rows : List AllowedUser)
    → any_where (grant_of t u) (delete_where (grant_on token) rows)
      ≡ (if t == token then false else any_where (grant_of t u) rows)
any_where-delete_where token t u [] = ground arith
any_where-delete_where token t u (a ∷ rest) = ground (arith, any_where-delete_where token t u rest)

listed_again :
    (same a b n : Bool)
    → ((if same then false else a) || ((same && b) && n)) ≡ (if same then b && n else a)
listed_again same a b n = ground arith

-- After an update of the allowed users in which no statement fails, a token lists exactly the users
-- of the database that the request names, if it is the token of the request and a row of the
-- database, and what it listed before if it is another token. This is so for a caller of any
-- organization.
pub update_allowed_users-exact :
    (env : ManageEnv) (org : Option ℕ) (token t u : ℕ) (texts : List String) (db : ContextDb)
    → ((n : ℕ) → env.insert_fails n ≡ false)
    → env.fails clear_allowed ≡ false
    → is_empty env texts ≡ false
    → is_user_allowed_for_token t u (update_allowed_users env org (some token) (some texts) db).1
      ≡ (if t == token
          then both_there token u db && named env u texts
          else is_user_allowed_for_token t u db)
unfolding update_allowed_users update_allowed_steps is_user_allowed_for_token
    replace_context_token_allowed_users run ◌>>=◌ require stop_if modify pure
update_allowed_users-exact env org token t u texts db inserts clears some_texts = rw some_texts (
    rw clears (
      insert_users-allowed env inserts token texts t u
        (replace_context_token_allowed_users token db)
      ∙ rw (any_where-delete_where token t u db.allowed_users) (
          listed_again (t == token) (is_user_allowed_for_token t u db) (both_there token u db)
            (named env u texts))))
