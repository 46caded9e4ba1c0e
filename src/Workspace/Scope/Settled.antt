-- ===== src/Workspace/Scope/Settled.antt =====
-- Which user and which organization a request is resolved to.
use zagforge_mvp.Prelude.{
  ℕ, String, ◌≡◌, refl, arith, true, false, ◌||◌, Option, none, some, List, [], ◌∷◌, ◌++◌, str_eq,
  eq_iff, Bool-cases, inl, inr, find,
}
use zagforge_mvp.Workspace.Model.{
  User, Organization, WorkDb, get_user_by_auth_id, upsert_user, get_org_by_slug, upsert_org,
}
use zagforge_mvp.Workspace.Queries.{upsert_organization}
use zagforge_mvp.Workspace.Scope.{
  user_with_auth_id, fresh_user, name_or_email_taken, get_user_by_auth_id_row,
  get_organization_by_slug, upsert_user_row, Claims, OrgHeaders, ScopeEnv, Scoped, stopped, scoped,
  sync_user, ensure_user, sync_org, ensure_org, slug_of, auth_id_of, scoped_to, with_org, scope,
}

-- the user that a request goes on with
abbrev pub user_of : Scoped → Option ℕ
user_of (stopped code) = none
user_of (scoped user org) = some user

-- the subject has a row, with that id
abbrev pub Known : String → ℕ → WorkDb → Type 0
Known subject id db = (u : User) × (get_user_by_auth_id_row subject db ≡ some u) × (u.id ≡ id)

find-appended :
    (auth_id : String) (u : User) (l : List User)
    → find (user_with_auth_id auth_id) l ≡ none
    → str_eq u.auth_user_id auth_id ≡ true
    → find (user_with_auth_id auth_id) (l ++ u ∷ []) ≡ some u
find-appended auth_id u [] h same = ground arith
find-appended auth_id u (x ∷ l) h same = ground (arith, find-appended auth_id u l)

-- what a row that was made or found is in the tables that come with it
abbrev Row : String → Option (User × WorkDb) → Type 0
Row subject none = Unit
Row subject (some (u, d)) = get_user_by_auth_id_row subject d ≡ some u

upsert_user_row-Row :
    (id : ℕ) (auth_id username email : String) (db : WorkDb)
    → get_user_by_auth_id_row auth_id db ≡ none
    → Row auth_id (upsert_user_row id auth_id username email db)
unfolding upsert_user_row get_user_by_auth_id_row
upsert_user_row-Row id auth_id username email db h =
    elim (Bool-cases (name_or_email_taken auth_id username email db.users)) [
      | inl taken ↦ rw taken tt
      | inr free ↦ rw free (
          rw h (
            find-appended auth_id (fresh_user id auth_id username email) db.users h
              ((eq_iff auth_id auth_id).1 refl)))
    ]

sync_user-Row :
    (env : ScopeEnv) (c : Claims) (o : Option User) (db : WorkDb)
    → get_user_by_auth_id_row c.subject db ≡ o
    → Row c.subject (sync_user env c o db)
unfolding sync_user
sync_user-Row env c (some u) db h = h
sync_user-Row env c none db h = elim (Bool-cases (env.fails upsert_user)) [
  | inl bad ↦ rw bad tt
  | inr ok ↦ rw ok (upsert_user_row-Row env.new_user_id c.subject c.name c.email db h)
]

ensure_user-Row : (env : ScopeEnv) (c : Claims) (db : WorkDb) → Row c.subject (ensure_user env c db)
unfolding ensure_user
ensure_user-Row env c db = elim (Bool-cases (env.fails get_user_by_auth_id)) [
  | inl bad ↦ rw bad tt
  | inr ok ↦ rw ok (sync_user-Row env c (get_user_by_auth_id_row c.subject db) db refl)
]

-- resolving an organization writes no user
abbrev SameUsers : WorkDb → Option (Organization × WorkDb) → Type 0
SameUsers db none = Unit
SameUsers db (some (o, d)) = d.users ≡ db.users

upsert_organization-users :
    (now id : ℕ) (auth_id slug name : String) (db : WorkDb) {o : Organization} {d : WorkDb}
    → upsert_organization now id auth_id slug name db ≡ some (o, d)
    → d.users ≡ db.users
unfolding upsert_organization
upsert_organization-users now id auth_id slug name db made = ground arith

SameUsers-made :
    (db : WorkDb) (r : Option (Organization × WorkDb))
    → ((o : Organization) (d : WorkDb) → r ≡ some (o, d) → d.users ≡ db.users)
    → SameUsers db r
SameUsers-made db none h = tt
SameUsers-made db (some (o, d)) h = h o d refl

ensure_org-SameUsers :
    (env : ScopeEnv) (slug auth_id name : String) (db : WorkDb)
    → SameUsers db (ensure_org env slug auth_id name db)
unfolding ensure_org
ensure_org-SameUsers env slug auth_id name db = elim (Bool-cases (env.fails get_org_by_slug)) [
  | inl bad ↦ rw bad tt
  | inr ok ↦ rw ok (synced (get_organization_by_slug slug db))
]
  where
    synced : (o : Option Organization) → SameUsers db (sync_org env slug auth_id name o db)
    synced (some o) = unfold sync_org in refl
    synced none =
        unfold sync_org in
        elim (Bool-cases (str_eq auth_id "" || env.fails upsert_org)) [
          | inl bad ↦ rw bad tt
          | inr ok ↦ rw ok (
              SameUsers-made db _
                (λ o d. upsert_organization-users env.now env.new_org_id auth_id slug _ db))
        ]

-- a request that goes on with the user `id` and writes no user
abbrev pub GoesOn : ℕ → WorkDb → Scoped × WorkDb → Type 0
GoesOn id db (s, d) = (user_of s ≡ some id) × (d.users ≡ db.users)

scoped_to-GoesOn :
    (env : ScopeEnv) (id : ℕ) (db : WorkDb) (o : Option (Organization × WorkDb))
    → SameUsers db o
    → GoesOn id db (scoped_to env id db o)
unfolding scoped_to
scoped_to-GoesOn env id db none h = (refl, refl)
scoped_to-GoesOn env id db (some (o, d)) h = (refl, h)

pub with_org-GoesOn :
    (env : ScopeEnv) (c : Claims) (h : OrgHeaders) (u : User) (db d : WorkDb)
    → GoesOn u.id d (with_org env c h (some (u, d)) db)
unfolding with_org
with_org-GoesOn env c h u db d = elim (Bool-cases (str_eq (slug_of env c h) "")) [
  | inl personal ↦ rw personal (refl, refl)
  | inr org ↦ rw org (
      scoped_to-GoesOn env u.id d _
        (ensure_org-SameUsers env (slug_of env c h) (auth_id_of env c h) h.name d))
]

pub known-GoesOn :
    (env : ScopeEnv) (c : Claims) (h : OrgHeaders) (db : WorkDb) (u : User)
    → env.fails get_user_by_auth_id ≡ false
    → get_user_by_auth_id_row c.subject db ≡ some u
    → GoesOn u.id db (scope env (some c) h db)
unfolding scope ensure_user sync_user
known-GoesOn env c h db u ok row = rw ok (rw row (with_org-GoesOn env c h u db db))

-- what an answer says of the subject
abbrev pub Resolved : String → Scoped × WorkDb → Type 0
Resolved subject (stopped code, d) = Unit
Resolved subject (scoped id org, d) = Known subject id d

Known-same :
    (subject : String) (u : User) (d d' : WorkDb)
    → get_user_by_auth_id_row subject d ≡ some u
    → d'.users ≡ d.users
    → Known subject u.id d'
unfolding get_user_by_auth_id_row
Known-same subject u d d' row same = (u, rw same row, refl)

GoesOn-Resolved :
    (subject : String) (u : User) (d : WorkDb) (r : Scoped × WorkDb)
    → get_user_by_auth_id_row subject d ≡ some u
    → GoesOn u.id d r
    → Resolved subject r
GoesOn-Resolved subject u d (stopped code, d') row g = tt
GoesOn-Resolved subject u d (scoped id org, d') row g =
    let (v, found, same) = Known-same subject u d d' row g.1 in (v, found, ground arith)

pub scope-Resolved :
    (env : ScopeEnv) (c : Claims) (h : OrgHeaders) (db : WorkDb)
    → Resolved c.subject (scope env (some c) h db)
unfolding scope
scope-Resolved env c h db = go (ensure_user env c db) (ensure_user-Row env c db)
  where
    go : (o : Option (User × WorkDb)) → Row c.subject o → Resolved c.subject (with_org env c h o db)
    go none r = unfold with_org in tt
    go (some (u, d)) r = GoesOn-Resolved c.subject u d _ r (with_org-GoesOn env c h u db d)
