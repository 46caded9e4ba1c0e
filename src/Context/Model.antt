-- ===== src/Context/Model.antt =====
-- The rows that the context handlers read and write: services/shared/go/store/models.go, with the
-- columns that they use of repositories and users.
use zagforge_mvp.Prelude.{ℕ, String, Bool, Option, List}
use zagforge_mvp.Jobs.Model.{Snapshot}
use zagforge_mvp.Workspace.Model.{Membership}

pub data Visibility : Type 0 where
  public private protected : Visibility

pub record ContextToken : Type 0 where
  pub id : ℕ
  pub repo_id : ℕ
  pub org_id : Option ℕ
  pub target_snapshot_id : Option ℕ
  pub token_hash : String
  pub label : Option String
  pub last_used_at : Option ℕ
  pub expires_at : Option ℕ
  pub created_at : ℕ
  pub user_id : Option ℕ
  pub visibility : Visibility

pub record AllowedUser : Type 0 where
  pub token_id : ℕ
  pub user_id : ℕ
  pub created_at : ℕ

pub record RepoRow : Type 0 where
  pub id : ℕ
  pub org_id : Option ℕ
  pub default_branch : String

pub record ContextDb : Type 0 where
  pub users : List ℕ
  pub repositories : List RepoRow
  pub snapshots : List Snapshot
  pub memberships : List Membership
  pub tokens : List ContextToken
  pub allowed_users : List AllowedUser

-- The statements of the handlers; `fails` tells which ones end in an error that the tables here do
-- not explain.
pub data Query : Type 0 where
  get_token get_snapshot get_latest get_repo get_membership is_allowed touch : Query
  insert_token clear_allowed list_allowed list_tokens delete_token : Query

abbrev pub Faults : Type 0
Faults = Query → Bool
