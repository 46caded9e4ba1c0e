-- ===== src/Workspace/Queries.antt =====
-- The SQL statements of services/shared/go/store/memberships.sql.go, organizations.sql.go, users.sql.go
-- and audit_log.sql.go, with the constraints of the schema. A role that a handler writes is one of
-- the three that the column admits.
use zagforge_mvp.Prelude.{
  ℕ, String, Bool, true, false, ◌&&◌, not, Option, none, some, [], ◌∷◌, ◌++◌, str_eq, ◌==◌,
  if◌then◌else◌, find, update_where, delete_where, count_where, any_where,
}
use zagforge_mvp.Workspace.Model.{User, Organization, Membership, AuditLog, WorkDb}

abbrev pub of_user : ℕ → ℕ → Membership → Bool
of_user user org m = m.user_id == user && m.org_id == org

abbrev pub owner_of : ℕ → Membership → Bool
owner_of org m = m.org_id == org && str_eq m.role "owner"

abbrev pub org_with_id : ℕ → Organization → Bool
org_with_id id o = o.id == id

abbrev pub user_with_id : ℕ → User → Bool
user_with_id id u = u.id == id

-- getMembership
unfoldable pub get_membership_row : ℕ → ℕ → WorkDb → Option Membership
get_membership_row user org db = find (of_user user org) db.memberships

-- countOwnersByOrg
unfoldable pub count_owners_by_org : ℕ → WorkDb → ℕ
count_owners_by_org org db = count_where (owner_of org) db.memberships

abbrev pub joined : ℕ → ℕ → ℕ → ℕ → String → Option ℕ → Membership
joined now id user org role inviter = record {
  id = id;
  user_id = user;
  org_id = org;
  role = role;
  invited_by = inviter;
  joined_at = now;
}

-- createMembership: `none` when the user or the organization is gone, or the user is a member
unfoldable pub create_membership_row : ℕ → ℕ → ℕ → ℕ → String → Option ℕ → WorkDb → Option WorkDb
create_membership_row now id user org role inviter db =
    if any_where (user_with_id user) db.users
      && any_where (org_with_id org) db.organizations
      && not (any_where (of_user user org) db.memberships)
    then some
        (record db { memberships = db.memberships ++ joined now id user org role inviter ∷ [] })
    else none

abbrev pub with_role : String → Membership → Membership
with_role role m = record m { role = role }

-- updateMembershipRole
unfoldable pub update_membership_role : ℕ → ℕ → String → WorkDb → WorkDb
update_membership_role user org role db = record db {
  memberships = update_where (of_user user org) (with_role role) db.memberships;
}

-- deleteMembership
unfoldable pub delete_membership_row : ℕ → ℕ → WorkDb → WorkDb
delete_membership_row user org db = record db {
  memberships = delete_where (of_user user org) db.memberships;
}

abbrev pub with_auth_id : String → Organization → Bool
with_auth_id auth_id o = str_eq o.auth_org_id auth_id

abbrev pub renamed : String → Organization → Organization
renamed name o = record o { name = name }

abbrev pub fresh_org : ℕ → ℕ → String → String → String → Organization
fresh_org now id auth_id slug name = record {
  id = id;
  slug = slug;
  name = name;
  created_at = now;
  auth_org_id = auth_id;
}

-- upsertOrg: the row that the statement returns, and the tables; `none` when another row has the slug
unfoldable pub upsert_organization :
    ℕ → ℕ → String → String → String → WorkDb → Option (Organization × WorkDb)
upsert_organization now id auth_id slug name db =
    elim (find (with_auth_id auth_id) db.organizations) [
      | some o ↦ some (
        renamed name o,
        record db {
          organizations = update_where (with_auth_id auth_id) (renamed name) db.organizations;
        },
      )
      | none ↦
          if any_where (λ o. str_eq o.slug slug) db.organizations
          then none
          else some (
            fresh_org now id auth_id slug name,
            record db {
              organizations = db.organizations ++ fresh_org now id auth_id slug name ∷ [];
            },
          )
    ]

abbrev pub with_details : String → String → Organization → Organization
with_details name slug o = record o { name = name; slug = slug }

-- updateOrganization: `none` when another row has the slug
unfoldable pub update_organization_row : ℕ → String → String → WorkDb → Option WorkDb
update_organization_row org name slug db =
    if any_where (λ o. str_eq o.slug slug && not (o.id == org)) db.organizations
    then none
    else some (record db {
      organizations = update_where (org_with_id org) (with_details name slug) db.organizations;
    })

abbrev pub about_org : ℕ → AuditLog → Bool
about_org org a = elim a.org_id [ none ↦ false | some id ↦ id == org ]

-- deleteOrganization, with the cascades of the foreign keys
unfoldable pub delete_organization_row : ℕ → WorkDb → WorkDb
delete_organization_row org db = record db {
  organizations = delete_where (org_with_id org) db.organizations;
  memberships = delete_where (λ m. m.org_id == org) db.memberships;
  audit_log = delete_where (about_org org) db.audit_log;
}

-- getUserByEmail
unfoldable pub get_user_by_email_row : String → WorkDb → Option User
get_user_by_email_row email db = find (λ u. str_eq u.email email) db.users

-- the CHECK of audit_log: exactly one of the two columns is filled
abbrev pub one_scope : AuditLog → Bool
one_scope a = elim a.user_id [
  | none ↦ elim a.org_id [ none ↦ false | some o ↦ true ]
  | some u ↦ elim a.org_id [ none ↦ true | some o ↦ false ]
]

-- insertAuditLog: the tables stay as they are when the row is refused
unfoldable pub insert_audit_log_row : AuditLog → WorkDb → WorkDb
insert_audit_log_row a db =
    if one_scope a && any_where (user_with_id a.actor_id) db.users
    then record db { audit_log = db.audit_log ++ a ∷ [] }
    else db
