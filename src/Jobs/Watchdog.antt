-- ===== src/Jobs/Watchdog.antt =====
-- Handler.Timeout of api/internal/handler/watchdog/watchdog.go.
pub mod Sound
pub mod Effect
use zagforge_mvp.Prelude.{ℕ, Option, none, some, if◌then◌else◌}
use zagforge_mvp.Jobs.Model.{Db, Faults, timeout_running_jobs as timeout_query}
use zagforge_mvp.Jobs.Queries.{timeout_running_jobs}

abbrev pub default_timeout_minutes : ℕ
default_timeout_minutes = 20

-- `none` is the 500 answer, `some n` the 200 answer with `timed_out = n`
pub timeout : Faults → ℕ → Db → Option ℕ × Db
timeout fails now db =
    if fails timeout_query
    then (none, db)
    else let (count, db') = timeout_running_jobs now default_timeout_minutes db in (some count, db')
