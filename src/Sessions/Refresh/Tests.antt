-- ===== src/Sessions/Refresh/Tests.antt =====
-- A refresh and its repetition.
use zagforge_mvp.Prelude.{◌≡◌, refl, true}
use zagforge_mvp.Prelude.Flow.{◌>>=◌, run}
use zagforge_mvp.Sessions.Queries.{
  get_refresh_token_by_hash, get_session_by_id, revoke_refresh_token, create_refresh_token,
  update_session_last_active,
}
use zagforge_mvp.Sessions.Fixtures.{env, db}
use zagforge_mvp.Sessions.Refresh.{revoke_old, touch, rotate, refresh_steps, refresh}
use zagforge_mvp.Sessions.Refresh.Outcome.{RefreshOutcome, refresh-outcome}
use zagforge_mvp.Sessions.Refresh.Rotation.{is_renewed}

refresh-outcome_example : RefreshOutcome env "r1" db (refresh env "r1" db).0 (refresh env "r1" db).1
refresh-outcome_example = refresh-outcome env "r1" db

pub renewed_once : is_renewed (refresh env "r1" db).0 ≡ true
unfolding refresh refresh_steps rotate touch revoke_old get_refresh_token_by_hash get_session_by_id
    revoke_refresh_token create_refresh_token update_session_last_active run ◌>>=◌
renewed_once = refl
