-- ===== src/Workspace/Model.antt =====
-- The rows of organizations, memberships, users and audit_log of the API's database:
-- services/shared/go/store/models.go.
use zagforge_mvp.Prelude.{ℕ, String, Bool, Option, List}

pub record User : Type 0 where
  pub id : ℕ
  pub username : String
  pub email : String
  pub auth_user_id : String

pub record Organization : Type 0 where
  pub id : ℕ
  pub slug : String
  pub name : String
  pub created_at : ℕ
  pub auth_org_id : String

pub record Membership : Type 0 where
  pub id : ℕ
  pub user_id : ℕ
  pub org_id : ℕ
  pub role : String
  pub invited_by : Option ℕ
  pub joined_at : ℕ

-- no caller of the handlers fills the metadata
pub record AuditLog : Type 0 where
  pub user_id : Option ℕ
  pub org_id : Option ℕ
  pub actor_id : ℕ
  pub action : String
  pub target_id : ℕ
  pub created_at : ℕ

pub record WorkDb : Type 0 where
  pub users : List User
  pub organizations : List Organization
  pub memberships : List Membership
  pub audit_log : List AuditLog

-- The statements of the handlers. `fails` tells which ones end in an error that the tables here do
-- not explain, such as a lost connection or a repository that still belongs to the organization.
pub data Query : Type 0 where
  get_membership get_target count_owners create_membership update_role delete_membership : Query
  upsert_org update_organization delete_organization get_user_by_email insert_audit_log : Query
  get_user_by_auth_id upsert_user get_org_by_slug : Query

abbrev pub Faults : Type 0
Faults = Query → Bool
