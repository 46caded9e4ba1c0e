-- ===== src/Workspace/Scope.antt =====
-- Scope of services/api/internal/middleware/auth/scope.go: it resolves the user and the organization
-- of a request and brings rows that only the auth service has into the database.
pub mod Settled
pub mod Requests
pub mod Blind
mod Tests
use zagforge_mvp.Prelude.{
  ℕ, String, Bool, true, false, ◌&&◌, ◌||◌, not, Option, none, some, List, [], ◌∷◌, ◌++◌, str_eq,
  if◌then◌else◌, find, any_where, update_where,
}
use zagforge_mvp.Workspace.Model.{
  User, Organization, WorkDb, Query, Faults, get_user_by_auth_id, upsert_user, get_org_by_slug,
  upsert_org,
}
use zagforge_mvp.Workspace.Queries.{upsert_organization}

abbrev pub user_with_auth_id : String → User → Bool
user_with_auth_id auth_id u = str_eq u.auth_user_id auth_id

abbrev pub org_with_slug : String → Organization → Bool
org_with_slug slug o = str_eq o.slug slug

-- getUserByAuthID
unfoldable pub get_user_by_auth_id_row : String → WorkDb → Option User
get_user_by_auth_id_row auth_id db = find (user_with_auth_id auth_id) db.users

-- getOrganizationBySlug
unfoldable pub get_organization_by_slug : String → WorkDb → Option Organization
get_organization_by_slug slug db = find (org_with_slug slug) db.organizations

abbrev pub fresh_user : ℕ → String → String → String → User
fresh_user id auth_id username email = record {
  id = id;
  username = username;
  email = email;
  auth_user_id = auth_id;
}

-- the UNIQUE columns of a row that is written, against the other rows
abbrev pub name_or_email_taken : String → String → String → List User → Bool
name_or_email_taken auth_id username email users =
    any_where
      (λ u.
        not (str_eq u.auth_user_id auth_id) && (str_eq u.username username || str_eq u.email email))
      users

abbrev pub with_profile : String → String → User → User
with_profile username email u = record u { username = username; email = email }

-- upsertUser: the row that the statement returns, and the tables; `none` when another user has the
-- name or the address
pub upsert_user_row : ℕ → String → String → String → WorkDb → Option (User × WorkDb)
upsert_user_row id auth_id username email db =
    if name_or_email_taken auth_id username email db.users
    then none
    else elim (find (user_with_auth_id auth_id) db.users) [
      | some u ↦ some (
        with_profile username email u,
        record db {
          users = update_where (user_with_auth_id auth_id) (with_profile username email) db.users;
        },
      )
      | none ↦ some (
        fresh_user id auth_id username email,
        record db { users = db.users ++ fresh_user id auth_id username email ∷ [] },
      )
    ]

-- the claims of the token that the middleware reads
pub record Claims : Type 0 where
  pub subject : String
  pub email : String
  pub name : String
  pub org_id : String
  pub org_slug : String

-- the headers X-Org-Slug, X-Org-ID and X-Org-Name, empty when they are absent
pub record OrgHeaders : Type 0 where
  pub slug : String
  pub auth_id : String
  pub name : String

pub record ScopeEnv : Type 0 where
  pub now : ℕ
  pub new_user_id : ℕ
  pub new_org_id : ℕ
  pub fails : Faults

-- the request is answered 401 or 500, or goes on with a user and the organization of the workspace
pub data Scoped : Type 0 where
  stopped : ℕ → Scoped
  scoped : (user_id : ℕ) → (org_id : Option ℕ) → Scoped

module _ (env : ScopeEnv) where
  open env use {now, new_user_id, new_org_id, fails}

  -- a row to use, or `none` for an error
  pub sync_user : Claims → Option User → WorkDb → Option (User × WorkDb)
  sync_user c (some u) db = some (u, db)
  sync_user c none db =
      if fails upsert_user then none else upsert_user_row new_user_id c.subject c.name c.email db

  -- ensureUser
  pub ensure_user : Claims → WorkDb → Option (User × WorkDb)
  ensure_user c db =
      if fails get_user_by_auth_id
      then none
      else sync_user c (get_user_by_auth_id_row c.subject db) db

  pub sync_org :
      String → String → String → Option Organization → WorkDb → Option (Organization × WorkDb)
  sync_org slug auth_id name (some o) db = some (o, db)
  sync_org slug auth_id name none db =
      if str_eq auth_id "" || fails upsert_org
      then none
      else upsert_organization now new_org_id auth_id slug (if str_eq name "" then slug else name)
          db

  -- ensureOrg
  pub ensure_org : String → String → String → WorkDb → Option (Organization × WorkDb)
  ensure_org slug auth_id name db =
      if fails get_org_by_slug
      then none
      else sync_org slug auth_id name (get_organization_by_slug slug db) db

  abbrev falls_back : Claims → OrgHeaders → Bool
  falls_back c h = str_eq h.slug "" && not (str_eq c.org_slug "")

  pub slug_of : Claims → OrgHeaders → String
  slug_of c h = if falls_back c h then c.org_slug else h.slug

  pub auth_id_of : Claims → OrgHeaders → String
  auth_id_of c h = if falls_back c h then c.org_id else h.auth_id

  -- an organization that is not resolved leaves the request in the personal workspace
  pub scoped_to : ℕ → WorkDb → Option (Organization × WorkDb) → Scoped × WorkDb
  scoped_to user db none = (scoped user none, db)
  scoped_to user db (some (o, db')) = (scoped user (some o.id), db')

  pub with_org : Claims → OrgHeaders → Option (User × WorkDb) → WorkDb → Scoped × WorkDb
  with_org c h none db = (stopped 500, db)
  with_org c h (some (u, db')) db =
      if str_eq (slug_of c h) ""
      then (scoped u.id none, db')
      else scoped_to u.id db' (ensure_org (slug_of c h) (auth_id_of c h) h.name db')

  -- Scope; the claims are `none` when the request went through no authentication
  pub scope : Option Claims → OrgHeaders → WorkDb → Scoped × WorkDb
  scope none h db = (stopped 401, db)
  scope (some c) h db = with_org c h (ensure_user c db) db
