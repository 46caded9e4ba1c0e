-- ===== src/Sessions/Lifecycle/Tests.antt =====
-- Refreshes and logouts of two users, and a refresh with a token that was revoked.
use zagforge_mvp.Prelude.{refl, some}
use zagforge_mvp.Sessions.Fixtures.{env, db, no_faults}
use zagforge_mvp.Sessions.Refresh.{refresh}
use zagforge_mvp.Sessions.Refresh.Rotation.{Refused}
use zagforge_mvp.Sessions.Refresh.Tests.{renewed_once}
use zagforge_mvp.Sessions.Logout.{logout_all}
use zagforge_mvp.Sessions.Lifecycle.{unchanged, step, logging_out_all, Follows-Refused}

Follows-Refused_example :
    Refused env "r1" (logout_all no_faults 60 (some (some 2)) (refresh env "r1" db).1).1
Follows-Refused_example =
    Follows-Refused env env "r1" db
      (logout_all no_faults 60 (some (some 2)) (refresh env "r1" db).1).1 refl renewed_once
      (step unchanged (logging_out_all no_faults 60 (some (some 2)) (refresh env "r1" db).1)) refl
