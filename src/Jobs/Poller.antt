-- ===== src/Jobs/Poller.antt =====
-- Poller.claimOne and Poller.pollBatch of worker/internal/worker/poller/poller.go. The two statements
-- of a claim are not one transaction: what the first wrote stays when the second fails.
pub mod Sound
pub mod Effect
use zagforge_mvp.Prelude.{ℕ, zero, suc, ◌-◌, Bool, true, false, Option, none, some, if◌then◌else◌}
use zagforge_mvp.Jobs.Model.{
  failed, Job, Repository, Db, Faults, claim_job as claim_query, get_repo_for_job as select_repo,
  update_job_status as update_status,
}
use zagforge_mvp.Jobs.Queries.{claim_job, get_repo_for_job, update_job_status}

-- one call's environment: the failing statements, the clock, the rows locked by others
pub record ClaimEnv : Type 0 where
  pub fails : Faults
  pub now : ℕ
  pub locked : ℕ → Bool

-- errNoJobs, the two other errors, and the job that was handed to the runner
pub data Claim : Type 0 where
  no_jobs claim_failed repo_not_found : Claim
  running_job : Job → Repository → Claim

abbrev pub is_running_job : Claim → Bool
is_running_job (running_job j r) = true
is_running_job _ = false

module _ (env : ClaimEnv) where
  open env use {fails, now, locked}

  -- the failure is written by a second statement, whose own error is only logged
  give_up : Job → Db → Db
  give_up job db =
      if fails update_status
      then db
      else update_job_status now job.id failed (some "repo not found for job") db

  look_up : Job → Db → Option Repository
  look_up job db = if fails select_repo then none else get_repo_for_job job.id db

  hand_over : Job → Db → Option Repository → Claim × Db
  hand_over job db none = (repo_not_found, give_up job db)
  hand_over job db (some repo) = (running_job job repo, db)

  after_claim : Option (Job × Db) → Db → Claim × Db
  after_claim none db = (no_jobs, db)
  after_claim (some (job, db')) db = hand_over job db' (look_up job db')

  pub claim_one : Db → Claim × Db
  claim_one db =
      if fails claim_query then (claim_failed, db) else after_claim (claim_job now locked db) db

-- the loop of pollBatch: `slots` rounds at most, and it ends at the first error or when `ctx` is
-- cancelled. The result is the number of jobs handed to the runner.
pub poll_loop : (env : ℕ → ClaimEnv) (cancelled : ℕ → Bool) → ℕ → Db → ℕ × Db
poll_loop env cancelled zero db = (0, db)
poll_loop env cancelled (suc slots) db =
    let (claim, db') = claim_one (env slots) db in
    let rest = poll_loop env cancelled slots db' in
    if cancelled slots
    then (0, db)
    else if is_running_job claim
    then (let (n, db'') = rest in (suc n, db''))
    else (0, db')

-- `slots := maxConcurrency - InFlight()`; a range over a negative number has no rounds
pub poll_batch : (env : ℕ → ClaimEnv) (cancelled : ℕ → Bool) → ℕ → ℕ → Db → ℕ × Db
poll_batch env cancelled max_concurrency in_flight db =
    poll_loop env cancelled (max_concurrency - in_flight) db
