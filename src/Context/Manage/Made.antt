-- ===== src/Context/Manage/Made.antt =====
-- The token that Create makes is the one that its link leads to.
use zagforge_mvp.Prelude.{
  length, Bool, ℕ, ◌≤◌, String, ◌≡◌, refl, ◌∙◌, arith, true, false, ◌&&◌, Option, none, some, List,
  [], ◌∷◌, ◌++◌, ◌==◌, Bool-cases, inl, inr, any_where, find, eq_iff,
}
use zagforge_mvp.Prelude.Outcome.{
  Ensures, Ensures-pure, Ensures-stop_if, Ensures-stop_unless_last, Ensures-require, Ensures-check,
  Ensures-get, Ensures-modify, run_meets,
}
use zagforge_mvp.Context.Model.{ContextToken, RepoRow, ContextDb}
use zagforge_mvp.Context.Queries.{
  with_hash, grant_of, token_with_id, get_context_token_by_hash, get_repo_by_id,
  insert_context_token, insert_context_token_allowed_user,
}
use zagforge_mvp.Context.Manage.{
  Managed, status, created, ManageEnv, CreateBody, visibility_of, expiry_of, same_org,
  verify_repo_ownership, insert_parsed, insert_users, new_token, users_of, create_steps,
  create_token,
}
use zagforge_mvp.Context.Manage.Tidy.{insert_context_token-parts}

-- the repository of the request is one of the workspace of the request
pub record Owned (org : Option ℕ) (repo_id : ℕ) (db : ContextDb) : Type 0 where
  pub row : RepoRow
  pub there : get_repo_by_id repo_id db ≡ some row
  pub same : same_org row.org_id org ≡ true

pub data CreateOutcome (env : ManageEnv) (org repo : Option ℕ) (body : Option CreateBody)
    (db : ContextDb) : Managed → ContextDb → Type 0 where
  not_made : (code : ℕ) → 400 ≤ code → CreateOutcome env org repo body db (status code) db
  made :
      (raw : String) (b : CreateBody) (t : ContextToken) (d : ContextDb)
      → Owned org t.repo_id db
      → repo ≡ some t.repo_id
      → body ≡ some b
      → t.org_id ≡ org
      → visibility_of b.visibility ≡ some t.visibility
      → expiry_of env.parse_time b.expires_at ≡ some t.expires_at
      → d.tokens ≡ db.tokens ++ t ∷ []
      → get_context_token_by_hash (env.sha256 raw) d ≡ some t
      → CreateOutcome env org repo body db (created raw) d

insert_parsed-tokens :
    (env : ManageEnv) (bad : Bool) (token : ℕ) (o : Option ℕ) (db : ContextDb)
    → (insert_parsed env bad token o db).tokens ≡ db.tokens
unfolding insert_parsed insert_context_token_allowed_user
insert_parsed-tokens env bad token none db = refl
insert_parsed-tokens env bad token (some user) db = elim (Bool-cases bad) [
  | inl e ↦ rw e refl
  | inr ok ↦
      rw ok
        (elim (Bool-cases
          (any_where (token_with_id token) db.tokens && any_where (λ u. u == user) db.users)) [
            | inl there ↦
                rw there (elim (Bool-cases (any_where (grant_of token user) db.allowed_users)) [
                  | inl dup ↦ rw dup refl
                  | inr fresh ↦ rw fresh refl
                ])
            | inr gone ↦ rw gone refl
          ])
]

insert_users-tokens :
    (env : ManageEnv) (token : ℕ) (texts : List String) (db : ContextDb)
    → (insert_users env token texts db).tokens ≡ db.tokens
unfolding insert_users
insert_users-tokens env token [] db = refl
insert_users-tokens env token (s ∷ rest) db =
    insert_users-tokens env token rest
      (insert_parsed env (env.insert_fails (length rest)) token (env.scan_uuid s) db)
    ∙ insert_parsed-tokens env (env.insert_fails (length rest)) token (env.scan_uuid s) db

find-appended :
    (t : ContextToken) (l : List ContextToken)
    → any_where (with_hash t.token_hash) l ≡ false
    → find (with_hash t.token_hash) (l ++ t ∷ []) ≡ some t
find-appended t [] h = ground (arith, eq_iff t.token_hash t.token_hash)
find-appended t (x ∷ l) h = ground (arith, find-appended t l)

module _ (env : ManageEnv) (org repo : Option ℕ) (body : Option CreateBody) (db : ContextDb) where
  verify_repo_ownership-Owned :
      (repo_id : ℕ)
      → Ensures
          (λ _ d. (d ≡ db) × Owned org repo_id db)
          (CreateOutcome env org repo body db)
          (verify_repo_ownership env repo_id org)
          db
  unfolding verify_repo_ownership
  verify_repo_ownership-Owned repo_id =
      Ensures-stop_if _ _ _ _ (λ _. not_made 404 (omega arith))
        λ _. Ensures-get _ _ (
          Ensures-require _ _ _ _ (λ _. not_made 404 (omega arith))
            λ row there.
              Ensures-stop_unless_last _ _ _ (λ _. not_made 404 (omega arith))
                (λ same. (refl, record { row = row; there = there; same = same })))

  -- the row that was inserted is found by its hash, and the users that are listed after it do not
  -- touch the tokens
  made-found :
      (b : CreateBody) (t : ContextToken) (d : ContextDb) (users : List String)
      → insert_context_token t db ≡ some d
      → ((insert_users env t.id users d).tokens ≡ db.tokens ++ t ∷ [])
        × (get_context_token_by_hash t.token_hash (insert_users env t.id users d) ≡ some t)
  unfolding get_context_token_by_hash
  made-found b t d users h =
      let (tokens, allowed, fresh, owner) = insert_context_token-parts t db d h in
      let same : (insert_users env t.id users d).tokens ≡ db.tokens ++ t ∷ [] =
        insert_users-tokens env t.id users d ∙ tokens in
      (same, rw same (find-appended t db.tokens fresh))

  -- Create answers 400 or more and changes nothing; or it answers with a raw token, the repository of
  -- the request belongs to the workspace of the request, and exactly one token is added: the one that
  -- the raw token leads to, for that repository and organization, with the visibility and the expiry
  -- that the request asks for.
  pub create_token-outcome :
      CreateOutcome env org repo body db
        (create_token env org repo body db).0
        (create_token env org repo body db).1
  unfolding create_token create_steps
  create_token-outcome = run_meets {E = CreateOutcome env org repo body db} _ db (
      Ensures-require _ _ _ _ (λ _. not_made 400 (omega arith))
        λ repo_id has_id.
          Ensures-check (λ _. Owned org repo_id db) _ _ _ (verify_repo_ownership-Owned repo_id)
            λ _ owned.
              Ensures-require _ _ _ _ (λ _. not_made 400 (omega arith))
                λ b has_body.
                  Ensures-require _ _ _ _ (λ _. not_made 400 (omega arith))
                    λ v visible.
                      Ensures-require _ _ _ _ (λ _. not_made 500 (omega arith))
                        λ raw _.
                          Ensures-require _ _ _ _ (λ _. not_made 400 (omega arith))
                            λ expires expiry.
                              Ensures-stop_if _ _ _ _ (λ _. not_made 500 (omega arith))
                                λ _. Ensures-get _ _ (
                                  Ensures-require _ _ _ _ (λ _. not_made 500 (omega arith))
                                    λ d h.
                                      let t = new_token env repo_id org b v raw expires in
                                      let found = made-found b t d (users_of env v b) h in
                                      Ensures-modify _ _ _ (
                                        Ensures-pure _ _ (
                                          made raw b t _ owned has_id has_body refl visible expiry
                                            found.0 found.1))))
