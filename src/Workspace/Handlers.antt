-- ===== src/Workspace/Handlers.antt =====
-- CreateOrg, UpdateOrg, DeleteOrg, InviteMember, UpdateMemberRole and RemoveMember of
-- services/api/internal/handler/org/handler.go. `caller` is the user that the scope middleware put into
-- the context, a URL parameter is scanned already.
pub mod Checks
pub mod Roles
pub mod Changes
pub mod Creation
use Prim.Native.String.{◌++◌}
use zagforge_mvp.Prelude.{
  ℕ, String, Bool, true, false, ◌&&◌, ◌||◌, not, Option, none, some, str_eq, leb, if◌then◌else◌,
  any_where,
}
use zagforge_mvp.Prelude.Flow.{
  Act, ◌>>=◌, ◌>>◌, pure, stop_if, stop_unless, get, require, modify, run,
}
use zagforge_mvp.Workspace.Model.{
  User, Organization, Membership, AuditLog, WorkDb, Faults, get_membership, get_target,
  count_owners, create_membership, update_role, delete_membership, upsert_org, update_organization,
  delete_organization, get_user_by_email, insert_audit_log,
}
use zagforge_mvp.Workspace.Queries.{
  org_with_id, get_membership_row, count_owners_by_org, joined, create_membership_row, with_role,
  update_membership_role, delete_membership_row, upsert_organization, with_details,
  update_organization_row, delete_organization_row, get_user_by_email_row, insert_audit_log_row,
}

pub data WorkErr : Type 0 where
  internal forbidden invalid_body validation invalid_param : WorkErr
  org_not_found already_member user_not_found last_owner cannot_demote : WorkErr

pub data WorkReply : Type 0 where
  failed : ℕ → WorkErr → WorkReply
  org_created : Organization → WorkReply
  org_updated no_content : WorkReply
  member_invited role_updated : Membership → WorkReply

-- One call's environment: the failing statements, the clock, the fresh ids, and the validator's
-- rule on email addresses.
pub record WorkEnv : Type 0 where
  pub fails : Faults
  pub now : ℕ
  pub new_org_id : ℕ
  pub new_membership_id : ℕ
  pub is_email : String → Bool

pub record OrgRequest : Type 0 where
  pub name : String
  pub slug : String

pub record InviteRequest : Type 0 where
  pub email : String
  pub role : String

abbrev pub filled : String → Bool
filled s = not (str_eq s "")

-- `oneof=owner admin member`
abbrev pub known_role : String → Bool
known_role r = str_eq r "owner" || str_eq r "admin" || str_eq r "member"

abbrev pub org_request_valid : OrgRequest → Bool
org_request_valid b = filled b.name && filled b.slug

-- `omitempty,oneof=owner admin member` on the role
abbrev pub invite_request_valid : (String → Bool) → InviteRequest → Bool
invite_request_valid is_email b =
    filled b.email && is_email b.email && (str_eq b.role "" || known_role b.role)

abbrev pub role_request_valid : String → Bool
role_request_valid role = filled role && known_role role

abbrev pub is_admin : Membership → Bool
is_admin m = str_eq m.role "admin"

abbrev pub owns_org : Membership → Bool
owns_org m = str_eq m.role "owner"

-- the allowed roles of a call of requireRole
abbrev pub only_owner : Membership → Bool
only_owner m = owns_org m

abbrev pub owner_or_admin : Membership → Bool
owner_or_admin m = owns_org m || is_admin m

module _ (env : WorkEnv) (caller : ℕ) where
  open env use {fails, now, new_org_id, new_membership_id, is_email}

  -- requireRole, and the handlers' 403 on its error
  pub require_role : (Membership → Bool) → ℕ → Act WorkDb WorkReply Membership
  require_role allowed org = do
    stop_if (fails get_membership) (failed 403 forbidden)
    db ← get
    m ← require (get_membership_row caller org db) (failed 403 forbidden)
    stop_unless (allowed m) (failed 403 forbidden)
    pure m

  -- audit: its error is only logged
  unfoldable pub audit : Option ℕ → ℕ → String → ℕ → WorkDb → WorkDb
  audit user org action target db =
      if fails insert_audit_log
      then db
      else insert_audit_log_row
          (record {
            user_id = user;
            org_id = some org;
            actor_id = caller;
            action = action;
            target_id = target;
            created_at = now;
          })
          db

  pub create_org_steps : Option OrgRequest → Act WorkDb WorkReply WorkReply
  create_org_steps body = do
    b ← require body (failed 400 invalid_body)
    stop_unless (org_request_valid b) (failed 400 validation)
    stop_if (fails upsert_org) (failed 500 internal)
    db ← get
    (org, db') ←
        require (upsert_organization now new_org_id ("local_" ++ b.slug) b.slug b.name db)
          (failed 500 internal)
    modify (λ _. db')
    stop_if (fails create_membership) (failed 500 internal)
    d ←
        require (create_membership_row now new_membership_id caller org.id "owner" none db')
          (failed 500 internal)
    modify (λ _. d)
    modify (audit (some caller) org.id "org.created" org.id)
    pure (org_created org)

  unfoldable pub create_org : Option OrgRequest → WorkDb → WorkReply × WorkDb
  create_org body = run (create_org_steps body)

  pub update_org_steps : Option ℕ → Option OrgRequest → Act WorkDb WorkReply WorkReply
  update_org_steps org_param body = do
    org ← require org_param (failed 400 invalid_param)
    require_role owner_or_admin org
    b ← require body (failed 400 invalid_body)
    stop_unless (org_request_valid b) (failed 400 validation)
    stop_if (fails update_organization) (failed 500 internal)
    db ← get
    stop_unless (any_where (org_with_id org) db.organizations) (failed 404 org_not_found)
    d ← require (update_organization_row org b.name b.slug db) (failed 500 internal)
    modify (λ _. d)
    modify (audit none org "org.updated" org)
    pure org_updated

  unfoldable pub update_org : Option ℕ → Option OrgRequest → WorkDb → WorkReply × WorkDb
  update_org org_param body = run (update_org_steps org_param body)

  pub delete_org_steps : Option ℕ → Act WorkDb WorkReply WorkReply
  delete_org_steps org_param = do
    org ← require org_param (failed 400 invalid_param)
    require_role only_owner org
    stop_if (fails delete_organization) (failed 500 internal)
    modify (delete_organization_row org)
    pure no_content

  unfoldable pub delete_org : Option ℕ → WorkDb → WorkReply × WorkDb
  delete_org org_param = run (delete_org_steps org_param)

  -- `if role == "" { role = "member" }`
  abbrev pub invited_role : String → String
  invited_role role = if str_eq role "" then "member" else role

  pub invite_steps : Option ℕ → Option InviteRequest → Act WorkDb WorkReply WorkReply
  invite_steps org_param body = do
    org ← require org_param (failed 400 invalid_param)
    require_role owner_or_admin org
    b ← require body (failed 400 invalid_body)
    stop_unless (invite_request_valid is_email b) (failed 400 validation)
    stop_if (fails get_user_by_email) (failed 500 internal)
    db ← get
    invitee ← require (get_user_by_email_row b.email db) (failed 404 user_not_found)
    stop_if (fails create_membership) (failed 409 already_member)
    d ←
        require
          (create_membership_row now new_membership_id invitee.id org (invited_role b.role)
            (some caller) db)
          (failed 409 already_member)
    modify (λ _. d)
    modify (audit none org "member.invited" invitee.id)
    pure (
        member_invited
          (joined now new_membership_id invitee.id org (invited_role b.role) (some caller)))

  unfoldable pub invite_member : Option ℕ → Option InviteRequest → WorkDb → WorkReply × WorkDb
  invite_member org_param body = run (invite_steps org_param body)

  -- the count of owners, taken only for an owner who stops being one
  pub keep_an_owner : Bool → ℕ → Act WorkDb WorkReply (Unit {0})
  keep_an_owner leaves org = do
    stop_if (leaves && fails count_owners) (failed 500 internal)
    db ← get
    stop_if (leaves && leb (count_owners_by_org org db) 1) (failed 409 last_owner)

  pub update_role_steps : Option ℕ → Option ℕ → Option String → Act WorkDb WorkReply WorkReply
  update_role_steps org_param user_param body = do
    org ← require org_param (failed 400 invalid_param)
    user ← require user_param (failed 400 invalid_param)
    mine ← require_role owner_or_admin org
    role ← require body (failed 400 invalid_body)
    stop_unless (role_request_valid role) (failed 400 validation)
    stop_if (fails get_target) (failed 404 user_not_found)
    db ← get
    target ← require (get_membership_row user org db) (failed 404 user_not_found)
    stop_if (is_admin mine && (owns_org target || str_eq role "owner")) (failed 403 cannot_demote)
    keep_an_owner (owns_org target && not (str_eq role "owner")) org
    stop_if (fails update_role) (failed 500 internal)
    modify (update_membership_role user org role)
    modify (audit none org "member.role_changed" user)
    pure (role_updated (with_role role target))

  unfoldable pub update_member_role :
      Option ℕ → Option ℕ → Option String → WorkDb → WorkReply × WorkDb
  update_member_role org_param user_param body = run (update_role_steps org_param user_param body)

  pub remove_steps : Option ℕ → Option ℕ → Act WorkDb WorkReply WorkReply
  remove_steps org_param user_param = do
    org ← require org_param (failed 400 invalid_param)
    user ← require user_param (failed 400 invalid_param)
    require_role owner_or_admin org
    stop_if (fails get_target) (failed 404 user_not_found)
    db ← get
    target ← require (get_membership_row user org db) (failed 404 user_not_found)
    keep_an_owner (owns_org target) org
    stop_if (fails delete_membership) (failed 500 internal)
    modify (delete_membership_row user org)
    modify (audit none org "member.removed" user)
    pure no_content

  unfoldable pub remove_member : Option ℕ → Option ℕ → WorkDb → WorkReply × WorkDb
  remove_member org_param user_param = run (remove_steps org_param user_param)
