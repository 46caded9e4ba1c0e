-- ===== src/Sessions/Logout/Tests.antt =====
-- Logouts on two sessions of two users.
use zagforge_mvp.Prelude.{◌≡◌, refl, true, some}
use zagforge_mvp.Prelude.Flow.{◌>>=◌, run}
use zagforge_mvp.Sessions.Queries.{get_session_by_id, revoke_session_row, revoke_tokens_by_session}
use zagforge_mvp.Sessions.Fixtures.{no_faults, session, db}
use zagforge_mvp.Sessions.Logout.{owns, revoke_steps, revoke_session}
use zagforge_mvp.Sessions.Logout.Closing.{is_done}

session_there : get_session_by_id 20 db ≡ some (session 20 1)
unfolding get_session_by_id
session_there = refl

own_revoked : is_done (revoke_session no_faults 60 (some (some 1)) (some 20) db).0 ≡ true
unfolding revoke_session revoke_steps owns get_session_by_id revoke_session_row
    revoke_tokens_by_session run ◌>>=◌
own_revoked = refl
