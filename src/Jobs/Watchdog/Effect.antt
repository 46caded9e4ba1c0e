-- ===== src/Jobs/Watchdog/Effect.antt =====
-- Which jobs the watchdog ends.
use zagforge_mvp.Prelude.{
  ℕ, ◌+◌, ◌<◌, ◌≡◌, refl, ◌∙◌, true, false, none, some, arith, List, [], ◌∷◌, find, update_where,
  count_where, if◌then◌else◌, Bool-cases, Option-cases, inl, inr,
}
use zagforge_mvp.Jobs.Model.{
  JobStatus, running, failed, is_running, Job, Db, Faults, timeout_running_jobs as timeout_query,
}
use zagforge_mvp.Jobs.Queries.{has_id, overdue, fail_overdue, get_job, timeout_running_jobs}
use zagforge_mvp.Jobs.Rows.{map_row}
use zagforge_mvp.Jobs.Watchdog.{timeout, default_timeout_minutes}

-- the job has been running for more than 1200 seconds, in microseconds
pub record Stuck (now : ℕ) (j : Job) : Type 0 where
  pub since : ℕ
  pub status : j.status ≡ running
  pub started : j.started_at ≡ some since
  pub long : since + 1200000000 < now

-- the row of a stuck job after the run
abbrev pub ended : ℕ → Job → Job
ended now j = record j {
  status = failed;
  error_message = some "Job timed out";
  updated_at = now;
  finished_at = some now;
}

-- What the run did to the rows: a stuck job is ended, every other row is as it was, none comes or
-- goes, and `n` rows are no longer running.
pub record Ended (now n : ℕ) (db d : Db) : Type 0 where
  pub stuck :
      (id : ℕ) (j : Job) → get_job id db ≡ some j → Stuck now j → get_job id d ≡ some (ended now j)
  pub others :
      (id : ℕ) (j : Job) → get_job id db ≡ some j → (Stuck now j → ⊥) → get_job id d ≡ some j
  pub none_made : (id : ℕ) → get_job id db ≡ none → get_job id d ≡ none
  pub counted :
      n + count_where (λ j. is_running j.status) d.jobs
      ≡ count_where (λ j. is_running j.status) db.jobs

is_running-running : (s : JobStatus) → is_running s ≡ true → s ≡ running
is_running-running s h = ground arith

overdue-Stuck : (now : ℕ) (j : Job) → overdue now default_timeout_minutes j ≡ true → Stuck now j
overdue-Stuck now j h = elim (Option-cases j.started_at) [
  | inl none_yet ↦ absurd (ground arith)
  | inr (t, e) ↦ record {
    since = t;
    status = is_running-running j.status (ground arith);
    started = e;
    long = ground arith;
  }
]

Stuck-overdue : (now : ℕ) (j : Job) → Stuck now j → overdue now default_timeout_minutes j ≡ true
Stuck-overdue now j s = rw (s.status, s.started) (let far = s.long in ground arith)

find-overdue :
    (id now mins : ℕ) (xs : List Job)
    → find (has_id id) (update_where (overdue now mins) (fail_overdue now) xs)
      ≡ map_row (λ j. if overdue now mins j then fail_overdue now j else j) (find (has_id id) xs)
find-overdue id now mins [] = refl
find-overdue id now mins (x ∷ xs) = ground (arith, find-overdue id now mins xs)

count-overdue :
    (now mins : ℕ) (xs : List Job)
    → count_where (overdue now mins) xs
        + count_where
            (λ j. is_running j.status)
            (update_where (overdue now mins) (fail_overdue now) xs)
      ≡ count_where (λ j. is_running j.status) xs
count-overdue now mins [] = refl
count-overdue now mins (x ∷ xs) = ground (arith, count-overdue now mins xs)

-- A run of the watchdog whose statement does not fail answers a number, and ends exactly the jobs
-- that are running and were started more than 1200 seconds before: their rows are failed, with the
-- message "Job timed out" and the time of the run; every other row is as it was, and none comes or
-- goes. The number is that of the rows that are no longer running.
pub timeout-exact :
    (fails : Faults) (now : ℕ) (db : Db)
    → fails timeout_query ≡ false
    → (n : ℕ) × ((timeout fails now db).0 ≡ some n) × Ended now n db (timeout fails now db).1
unfolding timeout timeout_running_jobs get_job
timeout-exact fails now db h =
    let row = λ (id : ℕ). find-overdue id now default_timeout_minutes db.jobs in
    rw h (
      count_where (overdue now default_timeout_minutes) db.jobs,
      refl,
      record {
        stuck = λ id j e s. row id ∙ rw e (rw (Stuck-overdue now j s) refl);
        others = λ id j e not_stuck. elim (Bool-cases (overdue now default_timeout_minutes j)) [
          | inl late ↦ absurd (not_stuck (overdue-Stuck now j late))
          | inr fine ↦ row id ∙ rw e (rw fine refl)
        ];
        none_made = λ id e. row id ∙ rw e refl;
        counted = count-overdue now default_timeout_minutes db.jobs;
      },
    )
