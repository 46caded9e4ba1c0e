-- ===== src/Jobs/Callback/Start.antt =====
-- What each answer of the start callback says of the database.
use zagforge_mvp.Prelude.{
  ℕ, ◌≤◌, String, ◌≡◌, refl, true, false, Option, none, some, arith, eq_iff, if◌then◌else◌, subst,
}
use zagforge_mvp.Prelude.Outcome.{
  Ensures, Ensures-pure, Ensures-stop_if, Ensures-stop_unless, Ensures-get, Ensures-modify,
  Ensures-require, Ensures-require_last, Ensures-if, Ensures-transaction, Ensures-bind, run_meets,
}
use zagforge_mvp.Jobs.Model.{running, is_terminal, is_running, Job, Repository, Db}
use zagforge_mvp.Jobs.Queries.{get_job, get_repo_for_job, update_job_status}
use zagforge_mvp.Jobs.Callback.{
  Err, invalid_request_body, validation, job_id_mismatch, invalid_job_id, job_not_found,
  job_already_terminal, internal, failed_to_clone_token, started, Reply, refuse, CallbackEnv,
  lock_job, start_running, restart_or_run, start_tx, respond_start, start_steps, start,
}

abbrev pub after_start : CallbackEnv → Job → Db → Db
after_start env job db =
    if is_running job.status then db else update_job_status env.now job.id running none db

-- the body of a 200 answer
abbrev pub start_reply : Job → Repository → String → Reply
start_reply job repo token = record {
  code = 200;
  body = started (record {
    commit_sha = job.commit_sha;
    branch = job.branch;
    repo_full_name = repo.full_name;
    clone_token = token;
    installation_id = repo.installation_id;
  });
}

-- Refused with nothing written, or the job is running afterwards and the answer is either the
-- clone data or a 500 that came after the commit.
pub data StartOutcome (env : CallbackEnv) (ctx_id : String) (db : Db) : Reply → Db → Type 0 where
  not_started : (code : ℕ) (e : Err) → 400 ≤ code → StartOutcome env ctx_id db (refuse code e) db
  answer_failed :
      (id : ℕ) (job : Job) (e : Err)
      → env.scan_uuid ctx_id ≡ some id
      → get_job id db ≡ some job
      → is_terminal job.status ≡ false
      → StartOutcome env ctx_id db (refuse 500 e) (after_start env job db)
  now_running :
      (id : ℕ) (job : Job) (repo : Repository) (token : String)
      → env.scan_uuid ctx_id ≡ some id
      → get_job id db ≡ some job
      → is_terminal job.status ≡ false
      → get_repo_for_job job.id (after_start env job db) ≡ some repo
      → env.clone_token repo.installation_id ≡ some token
      → StartOutcome env ctx_id db (start_reply job repo token) (after_start env job db)

running_live : (job : Job) → is_running job.status ≡ true → is_terminal job.status ≡ false
running_live job h = ground arith

module _ (env : CallbackEnv) (ctx_id : String) (db : Db) where
  -- what the transaction leaves when it commits
  Locked : ℕ → Job → Db → Type 0
  Locked id job d =
      (d ≡ after_start env job db) × (get_job id db ≡ some job) × (is_terminal job.status ≡ false)

  restart_or_run-Ensures :
      (id : ℕ) (job : Job)
      → get_job id db ≡ some job
      → Ensures (Locked id) (λ r _. StartOutcome env ctx_id db r db) (restart_or_run env job) db
  unfolding restart_or_run start_running Locked
  restart_or_run-Ensures id job found =
      Ensures-if _ _ _ _
        (λ runs.
          Ensures-stop_if _ _ _ _ (λ _. not_started 500 internal (omega arith))
            (λ _. Ensures-pure _ _ (ground arith, found, running_live job runs)))
        (λ stopped.
          Ensures-stop_if _ _ _ _ (λ _. not_started 409 job_already_terminal (omega arith))
            (λ live.
              Ensures-stop_if _ _ _ _ (λ _. not_started 500 internal (omega arith))
                (λ _. Ensures-modify _ _ _ (
                  Ensures-stop_if _ _ _ _ (λ _. not_started 500 internal (omega arith))
                    (λ _. Ensures-pure _ _ (ground arith, found, live))))))

  start_tx-Ensures :
      (id : ℕ) → Ensures (Locked id) (λ r _. StartOutcome env ctx_id db r db) (start_tx env id) db
  unfolding start_tx lock_job
  start_tx-Ensures id =
      Ensures-bind (λ job d. (d ≡ db) × (get_job id db ≡ some job)) _ _ _
        (Ensures-stop_if _ _ _ _ (λ _. not_started 500 internal (omega arith))
          (λ _. Ensures-get _ _ (
            Ensures-require_last _ _ _ (λ _. not_started 404 job_not_found (omega arith))
              (λ job h. (refl, h)))))
        (λ job d (same, found). rw same (restart_or_run-Ensures id job found))

  respond_start-Ensures :
      (id : ℕ) (job : Job) (d : Db)
      → env.scan_uuid ctx_id ≡ some id
      → Locked id job d
      → Ensures (StartOutcome env ctx_id db) (StartOutcome env ctx_id db) (respond_start env job) d
  unfolding respond_start Locked
  respond_start-Ensures id job d scanned (same, found, live) = rw same (
      Ensures-stop_if _ _ _ _ (λ _. answer_failed id job internal scanned found live)
        (λ _. Ensures-get _ _ (
          Ensures-require _ _ _ _ (λ _. answer_failed id job internal scanned found live)
            (λ repo owned.
              Ensures-require _ _ _ _
                (λ _. answer_failed id job failed_to_clone_token scanned found live)
                (λ token given.
                  Ensures-pure _ _
                    (now_running id job repo token scanned found live owned given))))))

  -- Whatever fails, a start ends in one of three ways: it is refused with a code from 400 on and
  -- the database is as it was; or the job named by the token was not terminal and is running
  -- afterwards (written now, or untouched if it was running before), and the answer is 200 with
  -- the job's commit and branch, its repository's name and installation and a token for it, or a
  -- 500 because the repository or the token could not be read after the commit.
  pub start-outcome :
      (body : Option String)
      → StartOutcome env ctx_id db (start env ctx_id body db).0 (start env ctx_id body db).1
  unfolding start start_steps
  start-outcome body = run_meets _ db (
      Ensures-require _ _ _ _ (λ _. not_started 400 invalid_request_body (omega arith))
        (λ req _.
          Ensures-stop_unless _ _ _ _ (λ _. not_started 400 validation (omega arith))
            (λ _.
              Ensures-stop_unless _ _ _ _ (λ _. not_started 400 job_id_mismatch (omega arith))
                (λ same.
                  Ensures-require _ _ _ _ (λ _. not_started 400 invalid_job_id (omega arith))
                    (λ id scanned.
                      let token_id : env.scan_uuid ctx_id ≡ some id =
                        subst (λ s. env.scan_uuid s ≡ some id) ((eq_iff req ctx_id).0 same)
                          scanned in
                      Ensures-stop_if _ _ _ _ (λ _. not_started 500 internal (omega arith))
                        (λ _.
                          Ensures-bind (Locked id) _ _ _
                            (Ensures-transaction _ _ (start_tx-Ensures id))
                            (λ job d locked. respond_start-Ensures id job d token_id locked)))))))
