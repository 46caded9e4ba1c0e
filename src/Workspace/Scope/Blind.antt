-- ===== src/Workspace/Scope/Blind.antt =====
-- What Scope of services/api/internal/middleware/auth/scope.go does not look at.
use zagforge_mvp.Prelude.{
  ℕ, String, ◌≡◌, refl, arith, ◌||◌, Option, none, some, List, str_eq, Bool-cases, inl, inr, find,
}
use zagforge_mvp.Workspace.Model.{
  User, Organization, Membership, WorkDb, get_user_by_auth_id, upsert_user, get_org_by_slug,
  upsert_org,
}
use zagforge_mvp.Workspace.Queries.{upsert_organization}
use zagforge_mvp.Workspace.Scope.{
  user_with_auth_id, org_with_slug, get_user_by_auth_id_row, get_organization_by_slug,
  upsert_user_row, Claims, OrgHeaders, ScopeEnv, Scoped, sync_user, ensure_user, sync_org,
  ensure_org, slug_of, auth_id_of, scoped_to, with_org, scope,
}

-- the tables with other memberships
abbrev pub with_memberships : List Membership → WorkDb → WorkDb
with_memberships ms db = record db { memberships = ms }

-- a result with other memberships in its tables
abbrev made_with : {A : Type 0} → List Membership → Option (A × WorkDb) → Option (A × WorkDb)
made_with ms none = none
made_with ms (some (a, d)) = some (a, with_memberships ms d)

abbrev pub answer_with : List Membership → Scoped × WorkDb → Scoped × WorkDb
answer_with ms (s, d) = (s, with_memberships ms d)

module _ (ms : List Membership) where
  upsert_user_row-blind :
      (id : ℕ) (auth_id username email : String) (db : WorkDb)
      → upsert_user_row id auth_id username email (with_memberships ms db)
        ≡ made_with ms (upsert_user_row id auth_id username email db)
  unfolding upsert_user_row
  upsert_user_row-blind id auth_id username email db = ground arith

  upsert_organization-blind :
      (now id : ℕ) (auth_id slug name : String) (db : WorkDb)
      → upsert_organization now id auth_id slug name (with_memberships ms db)
        ≡ made_with ms (upsert_organization now id auth_id slug name db)
  unfolding upsert_organization
  upsert_organization-blind now id auth_id slug name db = ground arith

  sync_user-blind :
      (env : ScopeEnv) (c : Claims) (o : Option User) (db : WorkDb)
      → sync_user env c o (with_memberships ms db) ≡ made_with ms (sync_user env c o db)
  unfolding sync_user
  sync_user-blind env c (some u) db = refl
  sync_user-blind env c none db = elim (Bool-cases (env.fails upsert_user)) [
    | inl bad ↦ rw bad refl
    | inr ok ↦ rw ok (upsert_user_row-blind env.new_user_id c.subject c.name c.email db)
  ]

  ensure_user-blind :
      (env : ScopeEnv) (c : Claims) (db : WorkDb)
      → ensure_user env c (with_memberships ms db) ≡ made_with ms (ensure_user env c db)
  unfolding ensure_user get_user_by_auth_id_row
  ensure_user-blind env c db = elim (Bool-cases (env.fails get_user_by_auth_id)) [
    | inl bad ↦ rw bad refl
    | inr ok ↦ rw ok (sync_user-blind env c (find (user_with_auth_id c.subject) db.users) db)
  ]

  sync_org-blind :
      (env : ScopeEnv) (slug auth_id name : String) (o : Option Organization) (db : WorkDb)
      → sync_org env slug auth_id name o (with_memberships ms db)
        ≡ made_with ms (sync_org env slug auth_id name o db)
  unfolding sync_org
  sync_org-blind env slug auth_id name (some o) db = refl
  sync_org-blind env slug auth_id name none db =
      elim (Bool-cases (str_eq auth_id "" || env.fails upsert_org)) [
        | inl bad ↦ rw bad refl
        | inr ok ↦ rw ok (upsert_organization-blind env.now env.new_org_id auth_id slug _ db)
      ]

  ensure_org-blind :
      (env : ScopeEnv) (slug auth_id name : String) (db : WorkDb)
      → ensure_org env slug auth_id name (with_memberships ms db)
        ≡ made_with ms (ensure_org env slug auth_id name db)
  unfolding ensure_org get_organization_by_slug
  ensure_org-blind env slug auth_id name db = elim (Bool-cases (env.fails get_org_by_slug)) [
    | inl bad ↦ rw bad refl
    | inr ok ↦
        rw ok (sync_org-blind env slug auth_id name (find (org_with_slug slug) db.organizations) db)
  ]

  scoped_to-blind :
      (env : ScopeEnv) (user : ℕ) (db : WorkDb) (o : Option (Organization × WorkDb))
      → scoped_to env user (with_memberships ms db) (made_with ms o)
        ≡ answer_with ms (scoped_to env user db o)
  unfolding scoped_to
  scoped_to-blind env user db none = refl
  scoped_to-blind env user db (some (o, d)) = refl

  with_org-blind :
      (env : ScopeEnv) (c : Claims) (h : OrgHeaders) (o : Option (User × WorkDb)) (db : WorkDb)
      → with_org env c h (made_with ms o) (with_memberships ms db)
        ≡ answer_with ms (with_org env c h o db)
  unfolding with_org
  with_org-blind env c h none db = refl
  with_org-blind env c h (some (u, d)) db = elim (Bool-cases (str_eq (slug_of env c h) "")) [
    | inl personal ↦ rw personal refl
    | inr org ↦ rw org (
        rw (ensure_org-blind env (slug_of env c h) (auth_id_of env c h) h.name d) (
          scoped_to-blind env u.id d
            (ensure_org env (slug_of env c h) (auth_id_of env c h) h.name d)))
  ]

-- The workspace of a request does not depend on who is a member of which organization: with any
-- other table of memberships in its place, the request is answered alike, or goes on as the same
-- user in the same organization, and writes the same users and organizations and no membership.
pub scope-memberships :
    (env : ScopeEnv) (claims : Option Claims) (h : OrgHeaders) (db : WorkDb) (ms : List Membership)
    → scope env claims h (with_memberships ms db) ≡ answer_with ms (scope env claims h db)
unfolding scope
scope-memberships env none h db ms = refl
scope-memberships env (some c) h db ms =
    rw (ensure_user-blind ms env c db) (with_org-blind ms env c h (ensure_user env c db) db)
