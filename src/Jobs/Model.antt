-- ===== src/Jobs/Model.antt =====
-- The rows of the job tables, and what a query of them answers: shared/go/store/models.go and
-- types.go. A UUID or int64 key is a number, a nullable column an `Option`, a timestamp its µs.
use zagforge_mvp.Prelude.{
  ℤ, ℕ, String, Bool, true, false, Option, none, some, List, str_eq, if◌then◌else◌,
}

pub data JobStatus : Type 0 where
  queued running succeeded failed cancelled superseded : JobStatus

-- store.JobStatus(s); a text that is none of the six is refused by the column's CHECK
unfoldable pub parse_status : String → Option JobStatus
parse_status s =
    if str_eq s "queued"
    then some queued
    else if str_eq s "running"
    then some running
    else if str_eq s "succeeded"
    then some succeeded
    else if str_eq s "failed"
    then some failed
    else if str_eq s "cancelled"
    then some cancelled
    else if str_eq s "superseded"
    then some superseded
    else none

-- JobStatus.IsTerminal
abbrev pub is_terminal : JobStatus → Bool
is_terminal succeeded = true
is_terminal failed = true
is_terminal cancelled = true
is_terminal superseded = true
is_terminal _ = false

abbrev pub is_queued : JobStatus → Bool
is_queued queued = true
is_queued _ = false

abbrev pub is_running : JobStatus → Bool
is_running running = true
is_running _ = false

pub record Job : Type 0 where
  pub id : ℕ
  pub repo_id : ℕ
  pub branch : String
  pub commit_sha : String
  pub delivery_id : Option String
  pub status : JobStatus
  pub error_message : Option String
  pub created_at : ℕ
  pub updated_at : ℕ
  pub started_at : Option ℕ
  pub finished_at : Option ℕ

pub record Snapshot : Type 0 where
  pub id : ℕ
  pub repo_id : ℕ
  pub job_id : Option ℕ
  pub branch : String
  pub commit_sha : String
  pub gcs_path : String
  pub snapshot_version : ℕ
  pub zigzag_version : String
  pub size_bytes : ℤ
  pub created_at : ℕ

pub record Repository : Type 0 where
  pub id : ℕ
  pub github_repo_id : ℕ
  pub installation_id : ℕ
  pub full_name : String
  pub default_branch : String

pub record Db : Type 0 where
  pub repositories : List Repository
  pub jobs : List Job
  pub snapshots : List Snapshot

-- `string(job.Status)`
unfoldable pub status_name : JobStatus → String
status_name queued = "queued"
status_name running = "running"
status_name succeeded = "succeeded"
status_name failed = "failed"
status_name cancelled = "cancelled"
status_name superseded = "superseded"

-- the statements that a handler sends; each may fail, as its `fails` argument says
pub data Query : Type 0 where
  begin_tx commit_tx get_repo_by_github_id advisory_lock get_active_jobs update_job_commit_sha :
      Query
  create_job get_job_for_update update_job_status insert_snapshot get_repo_for_job : Query
  claim_job timeout_running_jobs : Query

abbrev pub Faults : Type 0
Faults = Query → Bool
