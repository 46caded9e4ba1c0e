-- ===== src/Orgs/Queries.antt =====
-- The SQL statements of services/auth/internal/store/organizations.sql.go, invites.sql.go and
-- audit_logs.sql.go over the tables, with the constraints of the schema. `now` is the database's
-- now(); an UPDATE of an organization or of a membership also runs the trigger for `updated_at`.
use zagforge_mvp.Prelude.{
  ℕ, String, Bool, true, false, ◌&&◌, Option, none, some, [], ◌∷◌, ◌++◌, pos, str_eq, ltb, ◌==◌,
  if◌then◌else◌, find, update_where, delete_where, count_where, any_where, not,
}
use zagforge_mvp.Orgs.Model.{
  Organization, OrgMembership, InviteStatus, pending, accepted, revoked, Invite, AuditLog, OrgDb,
}

abbrev pub has_org_id : ℕ → Organization → Bool
has_org_id id o = o.id == id

abbrev pub in_org : ℕ → OrgMembership → Bool
in_org org m = m.org_id == org

abbrev pub member_of : ℕ → ℕ → OrgMembership → Bool
member_of org user m = m.org_id == org && m.user_id == user

-- getOrganizationByID
unfoldable pub get_organization_by_id : ℕ → OrgDb → Option Organization
get_organization_by_id id db = find (has_org_id id) db.organizations

-- getOrgMembership
unfoldable pub get_org_membership : ℕ → ℕ → OrgDb → Option OrgMembership
get_org_membership org user db = find (member_of org user) db.memberships

-- countOrgMembers
unfoldable pub count_org_members : ℕ → OrgDb → ℕ
count_org_members org db = count_where (in_org org) db.memberships

abbrev pub new_organization : ℕ → ℕ → String → String → Organization
new_organization now id slug name = record {
  id = id;
  slug = slug;
  name = name;
  logo_url = none;
  plan = "free";
  billing_email = none;
  max_members = pos 5;
  created_at = now;
  updated_at = now;
}

-- createOrganization: `none` when the slug is taken; `id` is what gen_random_uuid() returns
unfoldable pub create_organization : ℕ → ℕ → String → String → OrgDb → Option OrgDb
create_organization now id slug name db =
    if any_where (λ o. str_eq o.slug slug) db.organizations
    then none
    else some
        (record db { organizations = db.organizations ++ new_organization now id slug name ∷ [] })

abbrev pub new_membership : ℕ → ℕ → ℕ → ℕ → String → OrgMembership
new_membership now id org user role = record {
  id = id;
  org_id = org;
  user_id = user;
  role = role;
  created_at = now;
  updated_at = now;
}

-- createOrgMembership: `none` when the organization is gone or the user is a member already
unfoldable pub create_org_membership : ℕ → ℕ → ℕ → ℕ → String → OrgDb → Option OrgDb
create_org_membership now id org user role db =
    if not (any_where (has_org_id org) db.organizations)
    then none
    else if any_where (member_of org user) db.memberships
    then none
    else some
        (record db { memberships = db.memberships ++ new_membership now id org user role ∷ [] })

abbrev pub set_role : ℕ → String → OrgMembership → OrgMembership
set_role now role m = record m { role = role; updated_at = now }

-- updateOrgMemberRole
unfoldable pub update_org_member_role : ℕ → ℕ → ℕ → String → OrgDb → OrgDb
update_org_member_role now org user role db = record db {
  memberships = update_where (member_of org user) (set_role now role) db.memberships;
}

-- deleteOrgMembership
unfoldable pub delete_org_membership : ℕ → ℕ → OrgDb → OrgDb
delete_org_membership org user db = record db {
  memberships = delete_where (member_of org user) db.memberships;
}

abbrev pub of_org : ℕ → AuditLog → Bool
of_org org a = elim a.org_id [ none ↦ false | some id ↦ id == org ]

-- ON DELETE SET NULL
abbrev pub without_org : AuditLog → AuditLog
without_org a = record a { org_id = none }

-- deleteOrganization, with the cascades of the foreign keys
unfoldable pub delete_organization : ℕ → OrgDb → OrgDb
delete_organization org db = record {
  organizations = delete_where (has_org_id org) db.organizations;
  memberships = delete_where (in_org org) db.memberships;
  invites = delete_where (λ i. i.org_id == org) db.invites;
  audit_logs = update_where (of_org org) without_org db.audit_logs;
}

abbrev pub set_details : ℕ → String → Option String → Option String → Organization → Organization
set_details now name logo email o = record o {
  name = name;
  logo_url = logo;
  billing_email = email;
  updated_at = now;
}

-- updateOrganization
unfoldable pub update_organization : ℕ → ℕ → String → Option String → Option String → OrgDb → OrgDb
update_organization now org name logo email db = record db {
  organizations = update_where (has_org_id org) (set_details now name logo email) db.organizations;
}

-- getInviteByTokenHash
abbrev pub is_pending : InviteStatus → Bool
is_pending pending = true
is_pending _ = false

abbrev pub is_open : ℕ → Invite → Bool
is_open now i = is_pending i.status && ltb now i.expires_at

abbrev pub has_token : String → Invite → Bool
has_token hash i = str_eq i.token_hash hash

unfoldable pub get_invite_by_token_hash : ℕ → String → OrgDb → Option Invite
get_invite_by_token_hash now hash db = find (λ i. has_token hash i && is_open now i) db.invites

-- acceptInvite: `none` when it changed no row, which pgx reports as an error
abbrev pub has_invite_id : ℕ → Invite → Bool
has_invite_id id i = i.id == id

abbrev pub accepted_now : ℕ → Invite → Invite
accepted_now now i = record i { status = accepted; accepted_at = some now }

unfoldable pub accept_invite : ℕ → ℕ → OrgDb → Option OrgDb
accept_invite now id db =
    if any_where (λ i. has_invite_id id i && is_open now i) db.invites
    then some (record db {
      invites =
          update_where (λ i. has_invite_id id i && is_open now i) (accepted_now now) db.invites;
    })
    else none

-- revokeInvite
abbrev pub revoked_now : Invite → Invite
revoked_now i = record i { status = revoked }

abbrev pub revocable : ℕ → ℕ → Invite → Bool
revocable id org i = has_invite_id id i && (i.org_id == org && is_pending i.status)

unfoldable pub revoke_invite : ℕ → ℕ → OrgDb → OrgDb
revoke_invite id org db = record db {
  invites = update_where (revocable id org) revoked_now db.invites;
}

abbrev pub new_invite : ℕ → ℕ → ℕ → ℕ → String → String → String → ℕ → Invite
new_invite now id org by email role hash expires = record {
  id = id;
  org_id = org;
  team_id = none;
  invited_by = by;
  email = email;
  role = role;
  token_hash = hash;
  status = pending;
  expires_at = expires;
  accepted_at = none;
  created_at = now;
}

-- createInvite: `none` when the token's hash is taken or the organization is gone. The column's rule
-- on the role is the request's.
unfoldable pub create_invite : ℕ → ℕ → ℕ → ℕ → String → String → String → ℕ → OrgDb → Option OrgDb
create_invite now id org by email role hash expires db =
    if any_where (has_token hash) db.invites
    then none
    else if any_where (has_org_id org) db.organizations
    then some (record db {
      invites = db.invites ++ new_invite now id org by email role hash expires ∷ [];
    })
    else none

abbrev pub org_exists : Option ℕ → OrgDb → Bool
org_exists none db = true
org_exists (some id) db = any_where (has_org_id id) db.organizations

-- createAuditLog: its foreign key refuses an organization that is not there
unfoldable pub create_audit_log : AuditLog → OrgDb → Option OrgDb
create_audit_log a db =
    if org_exists a.org_id db
    then some (record db { audit_logs = db.audit_logs ++ a ∷ [] })
    else none
