-- ===== src/Teams/Model.antt =====
-- The rows of the tables of teams (services/auth/internal/store/models.go), beside the tables of
-- organizations.
use zagforge_mvp.Prelude.{ℕ, String, Bool, Option, List}
use zagforge_mvp.Orgs.Model.{OrgDb}
use zagforge_mvp.Orgs.Access.{Reply, OrgEnv}

pub record Team : Type 0 where
  pub id : ℕ
  pub org_id : ℕ
  pub slug : String
  pub name : String
  pub description : Option String
  pub created_at : ℕ
  pub updated_at : ℕ

pub record TeamMembership : Type 0 where
  pub id : ℕ
  pub team_id : ℕ
  pub user_id : ℕ
  pub role : String
  pub created_at : ℕ

pub record TeamDb : Type 0 where
  pub orgs : OrgDb
  pub teams : List Team
  pub team_memberships : List TeamMembership

-- the statements on the two tables that fail for a reason which the tables do not show
pub data TeamQuery : Type 0 where
  insert_team select_team change_team drop_team insert_member change_member drop_member : TeamQuery

-- One call's environment: that of the organizations, the failing statements and the text of a UUID.
pub record TeamEnv : Type 0 where
  pub org_env : OrgEnv
  pub team_fails : TeamQuery → Bool
  pub uuid_text : ℕ → String

-- `shared` is an answer that the handlers of organizations give too.
pub data TeamReply : Type 0 where
  shared : Reply → TeamReply
  invalid_team_id team_not_found : TeamReply
  team_shown : ℕ → Team → TeamReply

abbrev pub code_of : TeamReply → ℕ
code_of (shared r) = r.code
code_of invalid_team_id = 400
code_of team_not_found = 404
code_of (team_shown code t) = code
