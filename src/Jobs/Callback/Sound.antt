-- ===== src/Jobs/Callback/Sound.antt =====
-- The callbacks keep a valid database valid, whatever statements fail.
use zagforge_mvp.Prelude.{
  ℕ, String, true, false, ◌||◌, ◌≡◌, refl, Option, none, some, arith, find_sound, str_eq, eq_iff,
  inl, inr, Bool-cases, subst,
}
use zagforge_mvp.Prelude.FlowLaws.{
  Leaves, Leaves-stop_if, Leaves-bind, Leaves-transaction, Leaves-if, Leaves-require, Leaves-modify,
  Leaves-pure, step_rules, at-run,
}
use zagforge_mvp.Prelude.Flow.{go, ◌>>=◌, transaction}
use zagforge_mvp.Jobs.Model.{
  JobStatus, running, succeeded, is_terminal, is_running, parse_status, Job, Snapshot, Db,
}
use zagforge_mvp.Jobs.Queries.{has_id, get_job, update_job_status, insert_snapshot}
use zagforge_mvp.Jobs.Callback.{
  CallbackEnv, CompleteRequest, lock_job, start_running, restart_or_run, start_tx, respond_start,
  start_steps, start, message_of, snapshot_of, save_snapshot, finish_job, complete_locked,
  complete_tx, complete_steps, complete, complete_valid,
}
use zagforge_mvp.Jobs.Validity.{
  IsValid, Sound, Sound-refl, Sound-same_jobs, Sound-update_job_status,
}

-- a text that passes the request's `oneof` rule is a terminal status
parse_requested :
    (t : String) (s : JobStatus)
    → (str_eq t "succeeded" || str_eq t "failed") ≡ true
    → parse_status t ≡ some s
    → is_terminal s ≡ true
unfolding parse_status
parse_requested t s h p = elim (Bool-cases (str_eq t "succeeded")) [
  | inl e ↦
      let q : parse_status "succeeded" ≡ some s =
        subst (λ u. parse_status u ≡ some s) ((eq_iff t "succeeded").0 e) p in
      ground arith
  | inr e ↦
      let f : str_eq t "failed" ≡ true = ground arith in
      let q : parse_status "failed" ≡ some s =
        subst (λ u. parse_status u ≡ some s) ((eq_iff t "failed").0 f) p in
      ground arith
]

pub requested_terminal :
    (env : CallbackEnv) (req : CompleteRequest) (s : JobStatus)
    → complete_valid env req ≡ true
    → parse_status req.status ≡ some s
    → is_terminal s ≡ true
unfolding complete_valid
requested_terminal env req s ok e = parse_requested req.status s (ground arith) e

module _ (env : CallbackEnv) {db : Db} (v : IsValid db) where
  open env use {now}

  insert_snapshot-jobs :
      (s : Snapshot) (db' db'' : Db) → insert_snapshot s db' ≡ some db'' → db''.jobs ≡ db'.jobs
  unfolding insert_snapshot
  insert_snapshot-jobs s db' db'' h = ground arith

  -- the locked row is the one that the key finds
  lock_job-found :
      (id : ℕ) (job : Job) (db' : Db)
      → lock_job env id db ≡ (go job, db')
      → (get_job job.id db ≡ some job) × (db' ≡ db)
  unfolding lock_job get_job ◌>>=◌
  lock_job-found id job db' h = ground (arith, find_sound (has_id id) db.jobs {x = job})

  lock_job-Sound : (id : ℕ) → Leaves (Sound db) (lock_job env id) db
  unfolding lock_job
  lock_job-Sound id = search (step_rules, Sound-refl v)

  begin_row :
      (job : Job)
      → get_job job.id db ≡ some job
      → is_terminal job.status ≡ false
      → Sound db (update_job_status now job.id running none db)
  begin_row job row active =
      Sound-update_job_status v now job.id running none row active (ground arith) refl

  start_running-Sound :
      (job : Job)
      → get_job job.id db ≡ some job
      → is_running job.status ≡ false
      → Leaves (Sound db) (start_running env job) db
  unfolding start_running
  start_running-Sound job row h = search (step_rules, Sound-refl v, begin_row) depth 12

  restart_or_run-Sound :
      (job : Job) → get_job job.id db ≡ some job → Leaves (Sound db) (restart_or_run env job) db
  unfolding restart_or_run
  restart_or_run-Sound job row = search (step_rules, Sound-refl v, start_running-Sound) depth 12

  start_tx-Sound : (id : ℕ) → Leaves (Sound db) (start_tx env id) db
  unfolding start_tx
  start_tx-Sound id = Leaves-bind _ _ db (lock_job-Sound id) λ job db' e _.
      let (row, same) = lock_job-found id job db' e in rw same (restart_or_run-Sound job row)

  respond_start-Sound :
      (job : Job) (db' : Db) → Sound db db' → Leaves (Sound db) (respond_start env job) db'
  unfolding respond_start
  respond_start-Sound job db' s = search step_rules depth 12

  start_rest-Sound :
      (id : ℕ) → Leaves (Sound db) (transaction (start_tx env id) >>= respond_start env) db
  start_rest-Sound id =
      Leaves-bind _ _ db (Leaves-transaction _ db (Sound-refl v) (start_tx-Sound id))
        λ job db' _ s. respond_start-Sound job db' s

  start_steps-Sound :
      (ctx_id : String) (body : Option String) → Leaves (Sound db) (start_steps env ctx_id body) db
  unfolding start_steps
  start_steps-Sound ctx_id body = search (step_rules, Sound-refl v, start_rest-Sound) depth 12

  -- The start callback, answered or refused at any point, keeps the database valid and the history
  -- of every job.
  pub start-Sound : (ctx_id : String) (body : Option String) → Sound db (start env ctx_id body db).1
  unfolding start
  start-Sound ctx_id body = at-run (start_steps env ctx_id body) db (start_steps-Sound ctx_id body)

  save_snapshot-Sound :
      (req : CompleteRequest) (job : Job) (s : JobStatus) (db' : Db)
      → Sound db db'
      → Leaves (Sound db) (save_snapshot env req job s) db'
  unfolding save_snapshot
  save_snapshot-Sound req job succeeded db' h = search (step_rules, saved)
    where
      saved :
          (db'' : Db) → insert_snapshot (snapshot_of env req job) db' ≡ some db'' → Sound db db''
      saved db'' e =
          Sound-same_jobs {db' = db'} {db'' = db''}
            (insert_snapshot-jobs (snapshot_of env req job) db' db'' e) h
  save_snapshot-Sound req job _ db' h = search step_rules

  finished_row :
      (req : CompleteRequest) (job : Job) (s : JobStatus)
      → get_job job.id db ≡ some job
      → is_terminal job.status ≡ false
      → is_terminal s ≡ true
      → Sound db (update_job_status now job.id s (message_of env req) db)
  finished_row req job s row active done =
      Sound-update_job_status v now job.id s (message_of env req) row active (ground arith)
        (ground arith)

  finish_job-Sound :
      (req : CompleteRequest) (job : Job)
      → get_job job.id db ≡ some job
      → is_terminal job.status ≡ false
      → complete_valid env req ≡ true
      → Leaves (Sound db) (finish_job env req job) db
  unfolding finish_job
  finish_job-Sound req job row active ok = Leaves-stop_if _ _ _ db (Sound-refl v) λ _.
      Leaves-require _ _ _ db (Sound-refl v) λ s e. Leaves-modify _ _ db (
        Leaves-bind _ _ _
          (save_snapshot-Sound req job s _
            (finished_row req job s row active (requested_terminal env req s ok e)))
          λ _ db' _ h. search step_rules)

  complete_tx-Sound :
      (req : CompleteRequest) (id : ℕ)
      → complete_valid env req ≡ true
      → Leaves (Sound db) (complete_tx env req id) db
  unfolding complete_tx complete_locked
  complete_tx-Sound req id ok = Leaves-bind _ _ db (lock_job-Sound id) λ job db' e _.
      let (row, same) = lock_job-found id job db' e in
      rw same (
        Leaves-if _ _ _ db (λ _. Leaves-pure _ db (Sound-refl v))
          (λ active. finish_job-Sound req job row active ok))

  complete_steps-Sound :
      (ctx_id : String) (body : Option CompleteRequest)
      → Leaves (Sound db) (complete_steps env ctx_id body) db
  unfolding complete_steps
  complete_steps-Sound ctx_id body = search (step_rules, Sound-refl v, complete_tx-Sound) depth 12

  -- The completion callback, answered or refused at any point, keeps the database valid and the
  -- history of every job: a job that was terminal is not touched, and no job waits again.
  pub complete-Sound :
      (ctx_id : String) (body : Option CompleteRequest) → Sound db (complete env ctx_id body db).1
  unfolding complete
  complete-Sound ctx_id body =
      at-run (complete_steps env ctx_id body) db (complete_steps-Sound ctx_id body)
