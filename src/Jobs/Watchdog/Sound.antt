-- ===== src/Jobs/Watchdog/Sound.antt =====
-- The watchdog keeps a valid database valid.
use zagforge_mvp.Prelude.{ℕ, Bool-cases, inl, inr}
use zagforge_mvp.Jobs.Model.{Db, Faults, timeout_running_jobs as timeout_query}
use zagforge_mvp.Jobs.Validity.{IsValid, Sound, Sound-refl, Sound-timeout_running_jobs}
use zagforge_mvp.Jobs.Watchdog.{default_timeout_minutes, timeout}

-- a run of the watchdog, failed or not
pub timeout-Sound :
    (fails : Faults) (now : ℕ) {db : Db} → IsValid db → Sound db (timeout fails now db).1
unfolding timeout
timeout-Sound fails now {db} v = elim (Bool-cases (fails timeout_query)) [
  | inl e ↦ rw e (Sound-refl v)
  | inr e ↦ rw e (Sound-timeout_running_jobs v now default_timeout_minutes)
]
