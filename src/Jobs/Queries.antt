-- ===== src/Jobs/Queries.antt =====
-- The SQL statements of shared/go/store/jobs.sql.go and snapshots.sql.go over the tables. `now` is the
-- database's now(); every UPDATE of a job also runs the trigger that sets `updated_at`.
use zagforge_mvp.Prelude.{
  ℕ, ◌+◌, ◌*◌, String, Bool, false, not, ◌&&◌, ◌||◌, Option, none, some, List, [], ◌∷◌, ◌++◌,
  str_eq, ltb, leb, ◌==◌, if◌then◌else◌, find, update_where, select_where, count_where, any_where,
  sort_by,
}
use zagforge_mvp.Jobs.Model.{
  JobStatus, queued, running, failed, is_terminal, is_queued, is_running, Job, Snapshot, Repository,
  Db,
}

abbrev pub has_id : ℕ → Job → Bool
has_id id j = j.id == id

abbrev pub on_branch : ℕ → String → Job → Bool
on_branch repo branch j = j.repo_id == repo && str_eq j.branch branch

-- getRepoByGithubID
unfoldable pub get_repo_by_github_id : ℕ → Db → Option Repository
get_repo_by_github_id github_id db = find (λ r. r.github_repo_id == github_id) db.repositories

-- getJobForUpdate, getJobByID
unfoldable pub get_job : ℕ → Db → Option Job
get_job id db = find (has_id id) db.jobs

-- getRepoForJob: the repository that the job's row joins to
unfoldable pub get_repo_for_job : ℕ → Db → Option Repository
unfolding get_job
get_repo_for_job id db = elim (get_job id db) [
  | none ↦ none
  | some j ↦ find (λ r. r.id == j.repo_id) db.repositories
]

-- getActiveJobsForBranch
abbrev pub active_on : ℕ → String → Job → Bool
active_on repo branch j = on_branch repo branch j && (is_queued j.status || is_running j.status)

unfoldable pub get_active_jobs_for_branch : ℕ → String → Db → List Job
get_active_jobs_for_branch repo branch db =
    sort_by (λ j. j.created_at) (select_where (active_on repo branch) db.jobs)

-- updateJobCommitSHA
abbrev pub queued_with_id : ℕ → Job → Bool
queued_with_id id j = has_id id j && is_queued j.status

abbrev pub set_commit_sha : ℕ → String → Job → Job
set_commit_sha now sha j = record j { commit_sha = sha; updated_at = now }

unfoldable pub update_job_commit_sha : ℕ → ℕ → String → Db → Db
update_job_commit_sha now id sha db = record db {
  jobs = update_where (queued_with_id id) (set_commit_sha now sha) db.jobs;
}

-- updateJobStatus: the two CASE expressions of its SET list
abbrev pub set_status : ℕ → JobStatus → Option String → Job → Job
set_status now status message j = record j {
  status = status;
  error_message = message;
  updated_at = now;
  started_at = if is_running status then some now else j.started_at;
  finished_at = if is_terminal status then some now else j.finished_at;
}

unfoldable pub update_job_status : ℕ → ℕ → JobStatus → Option String → Db → Db
update_job_status now id status message db = record db {
  jobs = update_where (has_id id) (set_status now status message) db.jobs;
}

-- NULLIF($4, '')
abbrev pub nullif_empty : String → Option String
nullif_empty s = if str_eq s "" then none else some s

abbrev pub has_delivery : String → Job → Bool
has_delivery d j = elim j.delivery_id [ none ↦ false | some e ↦ str_eq e d ]

-- the unique index idx_jobs_delivery_id, over the rows whose delivery id is not NULL
abbrev pub delivery_taken : Option String → List Job → Bool
delivery_taken none jobs = false
delivery_taken (some d) jobs = any_where (has_delivery d) jobs

abbrev pub new_job : ℕ → ℕ → ℕ → String → String → Option String → Job
new_job now id repo branch sha delivery = record {
  id = id;
  repo_id = repo;
  branch = branch;
  commit_sha = sha;
  delivery_id = delivery;
  status = queued;
  error_message = none;
  created_at = now;
  updated_at = now;
  started_at = none;
  finished_at = none;
}

-- createJob: `none` is a violation of the unique index; `id` is what gen_random_uuid() returns
unfoldable pub create_job : ℕ → ℕ → ℕ → String → String → String → Db → Option Db
create_job now id repo branch sha delivery db =
    if delivery_taken (nullif_empty delivery) db.jobs
    then none
    else some (record db {
      jobs = db.jobs ++ new_job now id repo branch sha (nullif_empty delivery) ∷ [];
    })

-- the queued row with the least `created_at`, of those that no other transaction holds locked
abbrev pub older : Job → Option Job → Option Job
older j none = some j
older j (some k) = if leb j.created_at k.created_at then some j else some k

abbrev pub claimable : (ℕ → Bool) → Job → Bool
claimable locked j = is_queued j.status && not (locked j.id)

abbrev pub oldest_where : (Job → Bool) → List Job → Option Job
oldest_where p [] = none
oldest_where p (j ∷ js) = let rest = oldest_where p js in if p j then older j rest else rest

abbrev pub start_claimed : ℕ → Job → Job
start_claimed now j = record j { status = running; updated_at = now; started_at = some now }

abbrev pub claim_row : ℕ → Db → Option Job → Option (Job × Db)
claim_row now db none = none
claim_row now db (some j) = some (
  start_claimed now j,
  record db { jobs = update_where (has_id j.id) (start_claimed now) db.jobs },
)

-- claimJob: the claimed row as RETURNING shows it, and the table after it
unfoldable pub claim_job : ℕ → (ℕ → Bool) → Db → Option (Job × Db)
claim_job now locked db = claim_row now db (oldest_where (claimable locked) db.jobs)

-- make_interval(mins => $1)
abbrev pub minutes : ℕ → ℕ
minutes n = n * 60000000

abbrev pub overdue : ℕ → ℕ → Job → Bool
overdue now mins j =
    is_running j.status && elim j.started_at [ none ↦ false | some t ↦ ltb (t + minutes mins) now ]

abbrev pub fail_overdue : ℕ → Job → Job
fail_overdue now j = record j {
  status = failed;
  error_message = some "Job timed out";
  updated_at = now;
  finished_at = some now;
}

-- timeoutRunningJobs, with the number of rows that it changed
unfoldable pub timeout_running_jobs : ℕ → ℕ → Db → ℕ × Db
timeout_running_jobs now mins db = (
  count_where (overdue now mins) db.jobs,
  record db { jobs = update_where (overdue now mins) (fail_overdue now) db.jobs },
)

abbrev pub same_commit : ℕ → String → String → Snapshot → Bool
same_commit repo branch sha s =
    s.repo_id == repo && (str_eq s.branch branch && str_eq s.commit_sha sha)

-- insertSnapshot: `none` is a violation of idx_snapshots_unique (repo_id, branch, commit_sha)
unfoldable pub insert_snapshot : Snapshot → Db → Option Db
insert_snapshot s db =
    if any_where (same_commit s.repo_id s.branch s.commit_sha) db.snapshots
    then none
    else some (record db { snapshots = db.snapshots ++ s ∷ [] })
