-- ===== src/Jobs/Callback.antt =====
-- Handler.Start and Handler.Complete of api/internal/handler/callback/, behind the job-token
-- middleware: `ctx_id` is the job id that JobIDFromContext returns.
pub mod Sound
pub mod Effect
pub mod Start
pub mod Retry
mod Tests
use zagforge_mvp.Prelude.{
  ℕ, String, Bool, not, ◌&&◌, ◌||◌, Option, none, some, ℤ, is_nonneg, str_eq, if◌then◌else◌,
}
use zagforge_mvp.Prelude.Flow.{
  Act, ◌>>=◌, ◌>>◌, pure, require, transaction, stop_if, stop_unless, get, modify, run,
}
use zagforge_mvp.Jobs.Model.{
  JobStatus, running, succeeded, is_terminal, is_running, parse_status, status_name, Job, Snapshot,
  Db, Faults, begin_tx, commit_tx, get_job_for_update, update_job_status as update_status,
  insert_snapshot as insert_row, get_repo_for_job as select_repo,
}
use zagforge_mvp.Jobs.Queries.{get_job, get_repo_for_job, update_job_status, insert_snapshot}

pub data Err : Type 0 where
  invalid_request_body validation job_id_mismatch invalid_job_id job_not_found : Err
  job_already_terminal internal failed_to_clone_token : Err

pub record StartResponse : Type 0 where
  pub commit_sha : String
  pub branch : String
  pub repo_full_name : String
  pub clone_token : String
  pub installation_id : ℕ

pub data Body : Type 0 where
  error : Err → Body
  started : StartResponse → Body
  status_response : String → Body

pub record Reply : Type 0 where
  pub code : ℕ
  pub body : Body

abbrev pub refuse : ℕ → Err → Reply
refuse code e = record { code = code; body = error e }

-- CompleteRequest; StartRequest has the job id alone
pub record CompleteRequest : Type 0 where
  pub job_id : String
  pub status : String
  pub error_message : String
  pub snapshot_path : String
  pub zigzag_version : String
  pub size_bytes : ℤ
  pub duration_ms : ℤ

-- What the handlers take from outside: the validator's uuid rule, pgtype's UUID scanner, the
-- GitHub client, and for one call the failing statements, the clock and the fresh id.
pub record CallbackEnv : Type 0 where
  pub is_uuid : String → Bool
  pub scan_uuid : String → Option ℕ
  pub clone_token : ℕ → Option String
  pub fails : Faults
  pub now : ℕ
  pub new_id : ℕ

abbrev given : String → Bool
given s = not (str_eq s "")

-- the struct tag `required_if=Status v`
abbrev required_if : String → String → String → Bool
required_if status v field = not (str_eq status v) || given field

-- the struct tags of the two requests
pub start_valid : CallbackEnv → String → Bool
start_valid env id = given id && env.is_uuid id

pub complete_valid : CallbackEnv → CompleteRequest → Bool
complete_valid env req =
    given req.job_id
    && env.is_uuid req.job_id
    && given req.status
    && (str_eq req.status "succeeded" || str_eq req.status "failed")
    && required_if req.status "failed" req.error_message
    && required_if req.status "succeeded" req.snapshot_path
    && required_if req.status "succeeded" req.zigzag_version
    && is_nonneg req.size_bytes
    && is_nonneg req.duration_ms

module _ (env : CallbackEnv) where
  open env use {scan_uuid, clone_token, fails, now, new_id}

  -- GetJobForUpdate, with the two answers to its error
  lock_job : ℕ → Act Db Reply Job
  lock_job id = do
    stop_if (fails get_job_for_update) (refuse 500 internal)
    db ← get
    require (get_job id db) (refuse 404 job_not_found)

  start_running : Job → Act Db Reply Job
  start_running job = do
    stop_if (is_terminal job.status) (refuse 409 job_already_terminal)
    stop_if (fails update_status) (refuse 500 internal)
    modify (update_job_status now job.id running none)
    stop_if (fails commit_tx) (refuse 500 internal)
    pure job

  -- already running: the same answer again
  restart_or_run : Job → Act Db Reply Job
  restart_or_run job =
      if is_running job.status
      then (stop_if (fails commit_tx) (refuse 500 internal) >> pure job)
      else start_running job

  start_tx : ℕ → Act Db Reply Job
  start_tx id = do job ← lock_job id; restart_or_run job

  -- respondStart, which reads outside the transaction
  respond_start : Job → Act Db Reply Reply
  respond_start job = do
    stop_if (fails select_repo) (refuse 500 internal)
    db ← get
    repo ← require (get_repo_for_job job.id db) (refuse 500 internal)
    token ← require (clone_token repo.installation_id) (refuse 500 failed_to_clone_token)
    pure (record {
      code = 200;
      body = started (record {
        commit_sha = job.commit_sha;
        branch = job.branch;
        repo_full_name = repo.full_name;
        clone_token = token;
        installation_id = repo.installation_id;
      });
    })

  start_steps : String → Option String → Act Db Reply Reply
  start_steps ctx_id body = do
    job_id ← require body (refuse 400 invalid_request_body)
    stop_unless (start_valid env job_id) (refuse 400 validation)
    stop_unless (str_eq job_id ctx_id) (refuse 400 job_id_mismatch)
    id ← require (scan_uuid job_id) (refuse 400 invalid_job_id)
    stop_if (fails begin_tx) (refuse 500 internal)
    job ← transaction (start_tx id)
    respond_start job

  pub start : String → Option String → Db → Reply × Db
  start ctx_id body = run (start_steps ctx_id body)

  abbrev pub snapshot_of : CompleteRequest → Job → Snapshot
  snapshot_of req job = record {
    id = new_id;
    repo_id = job.repo_id;
    job_id = some job.id;
    branch = job.branch;
    commit_sha = job.commit_sha;
    gcs_path = req.snapshot_path;
    snapshot_version = 1;
    zigzag_version = req.zigzag_version;
    size_bytes = req.size_bytes;
    created_at = now;
  }

  abbrev pub message_of : CompleteRequest → Option String
  message_of req = if given req.error_message then some req.error_message else none

  -- `if status == JobStatusSucceeded { InsertSnapshot }`
  save_snapshot : CompleteRequest → Job → JobStatus → Act Db Reply (Unit {0})
  save_snapshot req job succeeded = do
    stop_if (fails insert_row) (refuse 500 internal)
    db ← get
    db' ← require (insert_snapshot (snapshot_of req job) db) (refuse 500 internal)
    modify (λ _. db')
  save_snapshot req job _ = pure tt

  -- the part for a job that is not terminal
  finish_job : CompleteRequest → Job → Act Db Reply Reply
  finish_job req job = do
    stop_if (fails update_status) (refuse 500 internal)
    to ← require (parse_status req.status) (refuse 500 internal)
    modify (update_job_status now job.id to (message_of req))
    save_snapshot req job to
    stop_if (fails commit_tx) (refuse 500 internal)
    pure (record { code = 200; body = status_response req.status })

  -- already terminal: nothing to do, and the commit's error is ignored
  complete_locked : CompleteRequest → Job → Act Db Reply Reply
  complete_locked req job =
      if is_terminal job.status
      then pure (record { code = 200; body = status_response (status_name job.status) })
      else finish_job req job

  complete_tx : CompleteRequest → ℕ → Act Db Reply Reply
  complete_tx req id = do job ← lock_job id; complete_locked req job

  complete_steps : String → Option CompleteRequest → Act Db Reply Reply
  complete_steps ctx_id body = do
    req ← require body (refuse 400 invalid_request_body)
    stop_unless (complete_valid env req) (refuse 400 validation)
    stop_unless (str_eq req.job_id ctx_id) (refuse 400 job_id_mismatch)
    id ← require (scan_uuid req.job_id) (refuse 400 invalid_job_id)
    stop_if (fails begin_tx) (refuse 500 internal)
    transaction (complete_tx req id)

  pub complete : String → Option CompleteRequest → Db → Reply × Db
  complete ctx_id body = run (complete_steps ctx_id body)
