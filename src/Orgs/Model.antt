-- ===== src/Orgs/Model.antt =====
-- The rows of the tables of organizations: services/auth/internal/store/models.go. A role is the
-- text of its column.
use zagforge_mvp.Prelude.{ℤ, ℕ, String, Bool, Option, List}

pub record Organization : Type 0 where
  pub id : ℕ
  pub slug : String
  pub name : String
  pub logo_url : Option String
  pub plan : String
  pub billing_email : Option String
  pub max_members : ℤ
  pub created_at : ℕ
  pub updated_at : ℕ

pub record OrgMembership : Type 0 where
  pub id : ℕ
  pub org_id : ℕ
  pub user_id : ℕ
  pub role : String
  pub created_at : ℕ
  pub updated_at : ℕ

pub data InviteStatus : Type 0 where
  pending accepted revoked expired : InviteStatus

pub record Invite : Type 0 where
  pub id : ℕ
  pub org_id : ℕ
  pub team_id : Option ℕ
  pub invited_by : ℕ
  pub email : String
  pub role : String
  pub token_hash : String
  pub status : InviteStatus
  pub expires_at : ℕ
  pub accepted_at : Option ℕ
  pub created_at : ℕ

-- a row of audit_logs as a caller of audit.Service.Log fills it
pub record AuditLog : Type 0 where
  pub org_id : Option ℕ
  pub actor_id : ℕ
  pub action : String
  pub target_type : String
  pub target_id : Option ℕ
  pub metadata : String

pub record OrgDb : Type 0 where
  pub organizations : List Organization
  pub memberships : List OrgMembership
  pub invites : List Invite
  pub audit_logs : List AuditLog

-- role.OrgOwner and the other two
abbrev pub org_owner : String
org_owner = "owner"

abbrev pub org_admin : String
org_admin = "admin"

abbrev pub org_member : String
org_member = "member"

-- The statements of the handlers. `fails` tells which ones end in an error that the tables here do
-- not explain, such as a lost connection or a user row that is gone.
pub data Query : Type 0 where
  get_membership get_target get_organization count_members create_organization create_membership :
      Query
  update_organization delete_organization promote demote update_role delete_membership : Query
  create_invite get_invite accept_invite revoke_invite create_audit_log generate_token : Query

abbrev pub Faults : Type 0
Faults = Query → Bool
