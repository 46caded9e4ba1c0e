-- ===== src/Workspace/Scope/Requests.antt =====
-- Sequences of requests through Scope of services/api/internal/middleware/auth/scope.go.
use zagforge_mvp.Prelude.{
  ℕ, String, ◌≡◌, refl, subst, arith, false, Option, none, some, List, [], ◌∷◌, ◌++◌, Bool-cases,
  inl, inr, find,
}
use zagforge_mvp.Workspace.Model.{User, WorkDb, get_user_by_auth_id, upsert_user}
use zagforge_mvp.Workspace.Scope.{
  user_with_auth_id, fresh_user, name_or_email_taken, get_user_by_auth_id_row, upsert_user_row,
  Claims, OrgHeaders, ScopeEnv, scoped, sync_user, ensure_user, with_org, scope,
}
use zagforge_mvp.Workspace.Scope.Settled.{
  GoesOn, with_org-GoesOn, known-GoesOn, Resolved, scope-Resolved,
}

-- Requests that follow one another, of any subjects, with any headers and failures; between them,
-- anything may happen that leaves the table of users alone.
pub data Requests (db : WorkDb) : WorkDb → Type 0 where
  at_first : Requests db db
  request :
      {mid : WorkDb}
      → Requests db mid
      → (env : ScopeEnv) (claims : Option Claims) (headers : OrgHeaders)
      → Requests db (scope env claims headers mid).1
  no_user_written :
      {mid : WorkDb} → Requests db mid → (d : WorkDb) → d.users ≡ mid.users → Requests db d

-- the subject still finds the row `u` in the tables that come with a user
abbrev Kept : String → User → Option (User × WorkDb) → Type 0
Kept subject u none = Unit
Kept subject u (some (v, d)) = get_user_by_auth_id_row subject d ≡ some u

find-kept :
    (auth_id : String) (u v : User) (l : List User)
    → find (user_with_auth_id auth_id) l ≡ some u
    → find (user_with_auth_id auth_id) (l ++ v ∷ []) ≡ some u
find-kept auth_id u v [] h = ground arith
find-kept auth_id u v (x ∷ l) h = ground (arith, find-kept auth_id u v l)

module _ (subject : String) (u : User) where
  upsert_user_row-Kept :
      (id : ℕ) (auth_id username email : String) (db : WorkDb)
      → get_user_by_auth_id_row auth_id db ≡ none
      → get_user_by_auth_id_row subject db ≡ some u
      → Kept subject u (upsert_user_row id auth_id username email db)
  unfolding upsert_user_row get_user_by_auth_id_row
  upsert_user_row-Kept id auth_id username email db absent row =
      elim (Bool-cases (name_or_email_taken auth_id username email db.users)) [
        | inl taken ↦ rw taken tt
        | inr free ↦
            rw free
              (rw absent (find-kept subject u (fresh_user id auth_id username email) db.users row))
      ]

  sync_user-Kept :
      (env : ScopeEnv) (c : Claims) (o : Option User) (db : WorkDb)
      → get_user_by_auth_id_row c.subject db ≡ o
      → get_user_by_auth_id_row subject db ≡ some u
      → Kept subject u (sync_user env c o db)
  unfolding sync_user
  sync_user-Kept env c (some v) db there row = row
  sync_user-Kept env c none db absent row = elim (Bool-cases (env.fails upsert_user)) [
    | inl bad ↦ rw bad tt
    | inr ok ↦ rw ok (upsert_user_row-Kept env.new_user_id c.subject c.name c.email db absent row)
  ]

  ensure_user-Kept :
      (env : ScopeEnv) (c : Claims) (db : WorkDb)
      → get_user_by_auth_id_row subject db ≡ some u
      → Kept subject u (ensure_user env c db)
  unfolding ensure_user
  ensure_user-Kept env c db row = elim (Bool-cases (env.fails get_user_by_auth_id)) [
    | inl bad ↦ rw bad tt
    | inr ok ↦ rw ok (sync_user-Kept env c (get_user_by_auth_id_row c.subject db) db refl row)
  ]

  same_row :
      (db d : WorkDb)
      → d.users ≡ db.users
      → get_user_by_auth_id_row subject db ≡ some u
      → get_user_by_auth_id_row subject d ≡ some u
  unfolding get_user_by_auth_id_row
  same_row db d same row = rw same row

  -- a request, of whichever subject, leaves the row to be found
  scope_row :
      (env : ScopeEnv) (claims : Option Claims) (h : OrgHeaders) (db : WorkDb)
      → get_user_by_auth_id_row subject db ≡ some u
      → get_user_by_auth_id_row subject (scope env claims h db).1 ≡ some u
  unfolding scope
  scope_row env none h db row = row
  scope_row env (some c) h db row = go (ensure_user env c db) (ensure_user-Kept env c db row)
    where
      go :
          (o : Option (User × WorkDb))
          → Kept subject u o
          → get_user_by_auth_id_row subject (with_org env c h o db).1 ≡ some u
      go none k = unfold with_org in row
      go (some (v, d)) k =
          same_row d (with_org env c h (some (v, d)) db).1 (with_org-GoesOn env c h v db d).1 k

  requests_row :
      {db d : WorkDb}
      → Requests db d
      → get_user_by_auth_id_row subject db ≡ some u
      → get_user_by_auth_id_row subject d ≡ some u
  requests_row at_first row = row
  requests_row (request {mid} l env claims h) row = scope_row env claims h mid (requests_row l row)
  requests_row (no_user_written {mid} l d same) row = same_row mid d same (requests_row l row)

-- A user is brought into the database once: when a request of a subject has gone on as some user,
-- and any requests of any subjects have followed, with anything between them that leaves the table
-- of users alone, then a request of the same subject goes on as the same user and writes no user,
-- whatever else its token says and whatever its headers are, provided that the statement that reads
-- the user's row does not fail.
pub scope-settled :
    (env later : ScopeEnv) (c again : Claims) (h h' : OrgHeaders) (db mid d : WorkDb) (id : ℕ)
    (org : Option ℕ)
    → scope env (some c) h db ≡ (scoped id org, mid)
    → Requests mid d
    → again.subject ≡ c.subject
    → later.fails get_user_by_auth_id ≡ false
    → GoesOn id d (scope later (some again) h' d)
scope-settled env later c again h h' db mid d id org first l subject ok =
    let (u, row, same) = subst (Resolved c.subject) first (scope-Resolved env c h db) in
    let kept : get_user_by_auth_id_row again.subject d ≡ some u =
      rw subject (requests_row c.subject u l row) in
    subst (λ k. GoesOn k d (scope later (some again) h' d)) same
      (known-GoesOn later again h' d u ok kept)
