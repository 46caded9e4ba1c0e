-- ===== src/Jobs/Push.antt =====
-- JobService.HandlePush of api/internal/service/job.go.
pub mod Sound
pub mod Effect
use zagforge_mvp.Prelude.{ℕ, String, Bool, not, Option, none, some, find}
use zagforge_mvp.Prelude.Flow.{
  Act, ◌>>=◌, ◌>>◌, pure, require, transaction, stop_if, get, modify, run,
}
use zagforge_mvp.Jobs.Model.{
  Job, Repository, Db, Faults, begin_tx, commit_tx, get_repo_by_github_id as select_repo,
  advisory_lock, get_active_jobs, update_job_commit_sha as update_sha, create_job as insert_job,
  is_queued,
}
use zagforge_mvp.Jobs.Queries.{
  get_repo_by_github_id, get_active_jobs_for_branch, update_job_commit_sha, create_job,
}

-- the fields of github.WebhookEvent that the service reads
pub record PushEvent : Type 0 where
  pub repo_id : ℕ
  pub branch : String
  pub commit_sha : String

-- What one push did. The Go function returns an error for `push_failed` and nil for the rest;
-- `enqueued` tells whether the task was handed to the queue.
pub data Pushed : Type 0 where
  push_failed not_registered duplicate_delivery : Pushed
  updated_in_place : ℕ → Pushed
  created : ℕ → (enqueued : Bool) → Pushed

-- what the transaction committed
pub data Committed : Type 0 where
  updated : ℕ → Committed
  inserted : ℕ → Committed

-- the environment of one call: the failing statements, the clock, the fresh id, the task queue
pub record PushEnv : Type 0 where
  pub fails : Faults
  pub now : ℕ
  pub new_id : ℕ
  pub enqueue_fails : Bool

module _ (env : PushEnv) (event : PushEvent) (delivery : String) where
  open env use {fails, now, new_id, enqueue_fails}

  -- the body of the loop for the first queued job
  update_queued : Job → Act Db Pushed Committed
  update_queued j = do
    stop_if (fails update_sha) push_failed
    modify (update_job_commit_sha now j.id event.commit_sha)
    stop_if (fails commit_tx) push_failed
    pure (updated j.id)

  insert_queued : Repository → Act Db Pushed Committed
  insert_queued repo = do
    stop_if (fails insert_job) push_failed
    db ← get
    db' ←
        require (create_job now new_id repo.id event.branch event.commit_sha delivery db)
          duplicate_delivery
    modify (λ _. db')
    stop_if (fails commit_tx) push_failed
    pure (inserted new_id)

  -- the loop over the active jobs, then the creation
  update_or_insert : Repository → Option Job → Act Db Pushed Committed
  update_or_insert repo none = insert_queued repo
  update_or_insert repo (some j) = update_queued j

  push_tx : Act Db Pushed Committed
  push_tx = do
    stop_if (fails select_repo) push_failed
    db ← get
    repo ← require (get_repo_by_github_id event.repo_id db) not_registered
    stop_if (fails advisory_lock) push_failed
    stop_if (fails get_active_jobs) push_failed
    update_or_insert repo
        (find (λ j. is_queued j.status) (get_active_jobs_for_branch repo.id event.branch db))

  -- enqueueing comes after the commit, and its failure is only logged
  after_commit : Committed → Act Db Pushed Pushed
  after_commit (updated id) = pure (updated_in_place id)
  after_commit (inserted id) = pure (created id (not enqueue_fails))

  push_steps : Act Db Pushed Pushed
  push_steps = do stop_if (fails begin_tx) push_failed; c ← transaction push_tx; after_commit c

  pub handle_push : Db → Pushed × Db
  handle_push = run push_steps
