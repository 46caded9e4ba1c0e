-- ===== src/Sessions/Model.antt =====
-- The rows of sessions and refresh_tokens: services/auth/internal/store/models.go.
use zagforge_mvp.Prelude.{ℕ, String, Bool, Option, List}

pub record RefreshToken : Type 0 where
  pub id : ℕ
  pub user_id : ℕ
  pub session_id : ℕ
  pub token_hash : String
  pub expires_at : ℕ
  pub revoked_at : Option ℕ
  pub created_at : ℕ

-- the columns that describe the device are left out
pub record Session : Type 0 where
  pub id : ℕ
  pub user_id : ℕ
  pub last_active_at : ℕ
  pub expires_at : ℕ
  pub revoked_at : Option ℕ
  pub created_at : ℕ

pub record SessionDb : Type 0 where
  pub sessions : List Session
  pub tokens : List RefreshToken

pub data Query : Type 0 where
  get_refresh_token get_session revoke_token generate_token create_token update_last_active : Query
  get_user revoke_session revoke_session_tokens revoke_user_sessions revoke_user_tokens : Query

abbrev pub Faults : Type 0
Faults = Query → Bool
