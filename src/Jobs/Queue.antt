-- ===== src/Jobs/Queue.antt =====
-- At most one job waits for each branch. The queries, one by one; the handlers are in the modules
-- below.
use zagforge_mvp.Prelude.{
  ℕ, ◌+◌, ◌≤◌, String, ◌≡◌, Bool, true, false, ◌&&◌, Option, none, some, List, [], ◌∷◌, arith,
  str_eq, ◌==◌, if◌then◌else◌, find, update_where, select_where, count_where, count_where-append,
  count_where-update_where, count_where-select_where, count_where-sort_by, count_where_mono,
  count_where_of_find-none,
}
use zagforge_mvp.Jobs.Model.{JobStatus, is_queued, Job, Db}
use zagforge_mvp.Jobs.Queries.{
  on_branch, get_active_jobs_for_branch, update_job_commit_sha, set_status, update_job_status,
  create_job, overdue, timeout_running_jobs, start_claimed, fail_overdue, has_id, queued_with_id,
  set_commit_sha, claim_row, active_on, new_job, nullif_empty,
}

abbrev pub waits_on : ℕ → String → Job → Bool
waits_on repo branch j = on_branch repo branch j && is_queued j.status

abbrev pub waiting : ℕ → String → Db → ℕ
waiting repo branch db = count_where (waits_on repo branch) db.jobs

abbrev pub OneQueued : Db → Type 0
OneQueued db = (repo : ℕ) (branch : String) → waiting repo branch db ≤ 1

module _ (repo : ℕ) (branch : String) where
  abbrev Keeps : (Job → Job) → Type 0
  Keeps f = (x : Job) → waits_on repo branch (f x) ≡ true → waits_on repo branch x ≡ true

  waits_on-set_status :
      (now : ℕ) (status : JobStatus) (message : Option String)
      → is_queued status ≡ false
      → Keeps (set_status now status message)
  waits_on-set_status now status message h x k = ground arith

  waits_on-start_claimed : (now : ℕ) → Keeps (start_claimed now)
  waits_on-start_claimed now x k = ground arith

  waits_on-fail_overdue : (now : ℕ) → Keeps (fail_overdue now)
  waits_on-fail_overdue now x k = ground arith

  waiting-update :
      (q : Job → Bool) (f : Job → Job) (jobs : List Job)
      → Keeps f
      → count_where (waits_on repo branch) (update_where q f jobs)
        ≤ count_where (waits_on repo branch) jobs
  waiting-update q f jobs h = count_where-update_where (waits_on repo branch) q f jobs (λ x _. h x)

  pub waiting-update_job_commit_sha :
      (now id : ℕ) (sha : String) (db : Db)
      → waiting repo branch (update_job_commit_sha now id sha db) ≤ waiting repo branch db
  unfolding update_job_commit_sha
  waiting-update_job_commit_sha now id sha db =
      waiting-update (queued_with_id id) (set_commit_sha now sha) db.jobs (λ x h. h)

  pub waiting-update_job_status :
      (now id : ℕ) (status : JobStatus) (message : Option String) (db : Db)
      → is_queued status ≡ false
      → waiting repo branch (update_job_status now id status message db) ≤ waiting repo branch db
  unfolding update_job_status
  waiting-update_job_status now id status message db h =
      waiting-update (has_id id) (set_status now status message) db.jobs
        (waits_on-set_status now status message h)

  pub waiting-claim_row :
      (now : ℕ) (db : Db) (o : Option Job) {job : Job} {db' : Db}
      → claim_row now db o ≡ some (job, db')
      → waiting repo branch db' ≤ waiting repo branch db
  waiting-claim_row now db none h = ground arith
  waiting-claim_row now db (some j) h =
      ground (
        arith,
        waiting-update (has_id j.id) (start_claimed now) db.jobs (waits_on-start_claimed now),
      )

  pub waiting-timeout_running_jobs :
      (now mins : ℕ) (db : Db)
      → waiting repo branch (timeout_running_jobs now mins db).1 ≤ waiting repo branch db
  unfolding timeout_running_jobs
  waiting-timeout_running_jobs now mins db =
      waiting-update (overdue now mins) (fail_overdue now) db.jobs (waits_on-fail_overdue now)

  -- an insertion adds one job, and only on its own branch
  pub waiting-create_job :
      (now id r : ℕ) (b sha delivery : String) (db : Db) {db' : Db}
      → create_job now id r b sha delivery db ≡ some db'
      → waiting repo branch db'
        ≡ waiting repo branch db + (if r == repo && str_eq b branch then 1 else 0)
  unfolding create_job
  waiting-create_job now id r b sha delivery db h = ground (
    arith,
    count_where-append (waits_on repo branch) db.jobs
        (new_job now id r b sha (nullif_empty delivery) ∷ []),
  )

  waits_on-active : (x : Job) → waits_on repo branch x ≡ true → active_on repo branch x ≡ true
  waits_on-active x h = ground arith

  waits_on-queued : (x : Job) → waits_on repo branch x ≡ true → is_queued x.status ≡ true
  waits_on-queued x h = ground arith

  -- no queued job among the active ones: none waits
  pub none-waiting :
      (db : Db)
      → find (λ j. is_queued j.status) (get_active_jobs_for_branch repo branch db) ≡ none
      → waiting repo branch db ≡ 0
  unfolding get_active_jobs_for_branch
  none-waiting db h =
      let active = get_active_jobs_for_branch repo branch db in
      let chosen = select_where (active_on repo branch) db.jobs in
      omega (
        arith,
        count_where_of_find-none (λ j. is_queued j.status) active h,
        count_where_mono (waits_on repo branch) (λ j. is_queued j.status) active waits_on-queued,
        count_where-sort_by (λ j. j.created_at) (waits_on repo branch) chosen,
        count_where-select_where (waits_on repo branch) (active_on repo branch) db.jobs
            waits_on-active,
      )
