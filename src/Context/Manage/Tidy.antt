-- ===== src/Context/Manage/Tidy.antt =====
-- What holds of the tokens whatever requests come in.
use zagforge_mvp.Prelude.{
  length, Bool, ℕ, ◌≤◌, String, ◌≡◌, refl, ◌∙◌, subst, arith, true, false, ◌&&◌, Option, none, some,
  List, [], ◌∷◌, ◌++◌, ◌==◌, Bool-cases, inl, inr, All, any_where, count_where, delete_where,
  any_where-append, any_where-update_same, count_where-append, count_where-delete_le,
  count_where-update_same, count_where_of_absent, All-update_where, All-append_one,
  All-delete_where, All_mono, str_eq, eq_iff,
}
use zagforge_mvp.Context.Model.{ContextToken, AllowedUser, ContextDb}
use zagforge_mvp.Context.Queries.{
  with_hash, grant_of, grant_on, token_with_id, token_of_org, one_owner, insert_context_token,
  insert_context_token_allowed_user, replace_context_token_allowed_users,
  delete_context_token_for_org, update_context_token_last_used,
}
use zagforge_mvp.Context.Manage.{ManageEnv, insert_parsed, insert_users}

-- one owner, no target, one token for a hash, and no grant on a token that is gone
pub record Tidy (db : ContextDb) : Type 0 where
  pub owned : All (λ t. (t.target_snapshot_id ≡ none) × (one_owner t ≡ true)) db.tokens
  pub one_for_hash : (hash : String) → count_where (with_hash hash) db.tokens ≤ 1
  pub grants : All (λ a. any_where (token_with_id a.token_id) db.tokens ≡ true) db.allowed_users

-- a database with other grants
Tidy-grants :
    (db d : ContextDb)
    → d.tokens ≡ db.tokens
    → All (λ a. any_where (token_with_id a.token_id) db.tokens ≡ true) d.allowed_users
    → Tidy db
    → Tidy d
Tidy-grants db d same g v = record {
  owned = rw same v.owned;
  one_for_hash = rw same v.one_for_hash;
  grants = rw same g;
}

pub insert_context_token-parts :
    (t : ContextToken) (db d : ContextDb)
    → insert_context_token t db ≡ some d
    → (d.tokens ≡ db.tokens ++ t ∷ [])
      × (d.allowed_users ≡ db.allowed_users)
      × (any_where (with_hash t.token_hash) db.tokens ≡ false)
      × (one_owner t ≡ true)
unfolding insert_context_token
insert_context_token-parts t db d h = (ground arith, ground arith, ground arith, ground arith)

one_for_hash-append :
    (l : List ContextToken) (t : ContextToken) (hash : String)
    → any_where (with_hash t.token_hash) l ≡ false
    → count_where (with_hash hash) l ≤ 1
    → count_where (with_hash hash) (l ++ t ∷ []) ≤ 1
one_for_hash-append l t hash fresh h =
    rw (count_where-append (with_hash hash) l (t ∷ []))
      (elim (Bool-cases (str_eq t.token_hash hash)) [
        | inl same ↦
            let none_before : count_where (with_hash hash) l ≡ 0 =
              subst (λ s. count_where (with_hash s) l ≡ 0) ((eq_iff t.token_hash hash).0 same)
                (count_where_of_absent (with_hash t.token_hash) l fresh) in
            ground arith
        | inr other ↦ ground arith
      ])

pub Tidy-insert_context_token :
    (t : ContextToken) (db d : ContextDb)
    → t.target_snapshot_id ≡ none
    → insert_context_token t db ≡ some d
    → Tidy db
    → Tidy d
Tidy-insert_context_token t db d target h v =
    let (tokens, allowed, fresh, owner) = insert_context_token-parts t db d h in
    record {
      owned = rw tokens (All-append_one _ db.tokens t v.owned (target, owner));
      one_for_hash =
          λ hash. rw tokens (one_for_hash-append db.tokens t hash fresh (v.one_for_hash hash));
      grants = rw tokens (
          rw allowed (
            All_mono _ _ db.allowed_users
              (λ a g.
                rw (any_where-append (token_with_id a.token_id) db.tokens (t ∷ [])) (rw g refl))
              v.grants));
    }

Tidy-insert_parsed :
    (env : ManageEnv) (bad : Bool) (token : ℕ) (o : Option ℕ) (db : ContextDb)
    → Tidy db
    → Tidy (insert_parsed env bad token o db)
unfolding insert_parsed insert_context_token_allowed_user
Tidy-insert_parsed env bad token none db v = v
Tidy-insert_parsed env bad token (some user) db v = elim (Bool-cases bad) [
  | inl e ↦ rw e v
  | inr ok ↦
      rw ok
        (elim (Bool-cases
          (any_where (token_with_id token) db.tokens && any_where (λ u. u == user) db.users)) [
            | inl there ↦
                rw there (elim (Bool-cases (any_where (grant_of token user) db.allowed_users)) [
                  | inl dup ↦ rw dup v
                  | inr fresh ↦ rw fresh (
                      Tidy-grants db _ refl
                        (All-append_one _ db.allowed_users _ v.grants (ground arith)) v)
                ])
            | inr gone ↦ rw gone v
          ])
]

pub Tidy-insert_users :
    (env : ManageEnv) (token : ℕ) (texts : List String) (db : ContextDb)
    → Tidy db
    → Tidy (insert_users env token texts db)
unfolding insert_users
Tidy-insert_users env token [] db v = v
Tidy-insert_users env token (s ∷ rest) db v =
    Tidy-insert_users env token rest _
      (Tidy-insert_parsed env (env.insert_fails (length rest)) token (env.scan_uuid s) db v)

pub Tidy-replace :
    (token : ℕ) (db : ContextDb) → Tidy db → Tidy (replace_context_token_allowed_users token db)
unfolding replace_context_token_allowed_users
Tidy-replace token db v =
    Tidy-grants db _ refl (All-delete_where _ (grant_on token) db.allowed_users v.grants) v

pub Tidy-touch :
    (now id : ℕ) (db : ContextDb) → Tidy db → Tidy (update_context_token_last_used now id db)
unfolding update_context_token_last_used
Tidy-touch now id db v = record {
  owned = All-update_where _ (token_with_id id) _ db.tokens (λ t _ h. h) v.owned;
  one_for_hash = λ hash.
      rw
        (count_where-update_same (token_with_id id) (with_hash hash)
          (λ t. record t { last_used_at = some now }) db.tokens (λ t. refl))
        (v.one_for_hash hash);
  grants =
      All_mono _ _ db.allowed_users
        (λ a g.
          any_where-update_same (token_with_id id) (token_with_id a.token_id)
            (λ t. record t { last_used_at = some now }) db.tokens (λ t. refl)
          ∙ g)
        v.grants;
}

kept_token :
    (k id : ℕ) (org : Option ℕ) (l : List ContextToken)
    → (k == id) ≡ false
    → any_where (token_with_id k) l ≡ true
    → any_where (token_with_id k) (delete_where (token_of_org id org) l) ≡ true
kept_token k id org [] other h = h
kept_token k id none (t ∷ l) other h = ground (arith, kept_token k id none l other)
kept_token k id (some o) (t ∷ l) other h = ground (arith, kept_token k id (some o) l other)

-- the grants that the cascade leaves are on tokens that are left
kept_grants :
    (id : ℕ) (org : Option ℕ) (l : List ContextToken) (rows : List AllowedUser)
    → All (λ a. any_where (token_with_id a.token_id) l ≡ true) rows
    → All
        (λ a. any_where (token_with_id a.token_id) (delete_where (token_of_org id org) l) ≡ true)
        (delete_where (grant_on id) rows)
kept_grants id org l [] g = tt
kept_grants id org l (a ∷ rows) g = elim (Bool-cases (grant_on id a)) [
  | inl e ↦ rw e (kept_grants id org l rows g.1)
  | inr e ↦ rw e (kept_token a.token_id id org l e g.0, kept_grants id org l rows g.1)
]

pub Tidy-delete :
    (id : ℕ) (org : Option ℕ) (db : ContextDb)
    → Tidy db
    → Tidy (delete_context_token_for_org id org db)
unfolding delete_context_token_for_org
Tidy-delete id org db v = elim (Bool-cases (any_where (token_of_org id org) db.tokens)) [
  | inl there ↦ rw there (record {
    owned = All-delete_where _ (token_of_org id org) db.tokens v.owned;
    one_for_hash = λ hash. ground (
      arith,
      count_where-delete_le (token_of_org id org) (with_hash hash) db.tokens,
      v.one_for_hash hash,
    );
    grants = kept_grants id org db.tokens db.allowed_users v.grants;
  })
  | inr gone ↦ rw gone v
]
