-- ===== src/Jobs/Callback/Effect.antt =====
-- What each answer of the two callbacks says of the database.
use zagforge_mvp.Prelude.{
  ℕ, ◌≤◌, String, ◌≡◌, refl, ap, ◌∙◌, subst, Bool, true, false, Option, some, List, [], ◌∷◌, ◌++◌,
  arith, eq_iff, ==_iff, find_sound, if◌then◌else◌,
}
use zagforge_mvp.Prelude.Outcome.{
  Ensures, Ensures-pure, Ensures-stop_if, Ensures-stop_unless, Ensures-get, Ensures-modify,
  Ensures-modify_last, Ensures-require, Ensures-require_last, Ensures-if, Ensures-transaction,
  Ensures-bind, run_meets,
}
use zagforge_mvp.Jobs.Model.{
  JobStatus, running, succeeded, is_terminal, parse_status, status_name, Job, Snapshot, Db, queued,
  failed, cancelled, superseded,
}
use zagforge_mvp.Jobs.Queries.{has_id, set_status, get_job, update_job_status, insert_snapshot}
use zagforge_mvp.Jobs.Rows.{get_job-update_job_status}
use zagforge_mvp.Jobs.Callback.{
  Err, invalid_request_body, validation, job_id_mismatch, invalid_job_id, job_not_found, internal,
  status_response, Reply, refuse, CompleteRequest, CallbackEnv, lock_job, complete_valid,
  snapshot_of, message_of, save_snapshot, finish_job, complete_locked, complete_tx, complete_steps,
  complete,
}

abbrev pub ok_status : String → Reply
ok_status s = record { code = 200; body = status_response s }

abbrev pub is_succeeded : JobStatus → Bool
is_succeeded succeeded = true
is_succeeded _ = false

abbrev pub snapshots_after : CallbackEnv → CompleteRequest → Job → JobStatus → Db → List Snapshot
snapshots_after env req job to db =
    if is_succeeded to then db.snapshots ++ snapshot_of env req job ∷ [] else db.snapshots

-- The three ways in which a completion ends: refused with nothing written; the job had ended
-- before, and nothing is written; or the job ends now.
pub data CompleteOutcome (env : CallbackEnv) (ctx_id : String) (db : Db) : Reply → Db → Type 0 where
  refused : (code : ℕ) (e : Err) → 400 ≤ code → CompleteOutcome env ctx_id db (refuse code e) db
  already_ended :
      (id : ℕ) (job : Job)
      → env.scan_uuid ctx_id ≡ some id
      → get_job id db ≡ some job
      → is_terminal job.status ≡ true
      → CompleteOutcome env ctx_id db (ok_status (status_name job.status)) db
  ended :
      (req : CompleteRequest) (id : ℕ) (job : Job) (to : JobStatus) (d : Db)
      → complete_valid env req ≡ true
      → env.scan_uuid ctx_id ≡ some id
      → get_job id db ≡ some job
      → is_terminal job.status ≡ false
      → parse_status req.status ≡ some to
      → get_job id d ≡ some (set_status env.now to (message_of env req) job)
      → d.snapshots ≡ snapshots_after env req job to db
      → CompleteOutcome env ctx_id db (ok_status req.status) d

insert_snapshot-parts :
    (s : Snapshot) (db d : Db)
    → insert_snapshot s db ≡ some d
    → (d.jobs ≡ db.jobs) × (d.snapshots ≡ db.snapshots ++ s ∷ [])
unfolding insert_snapshot
insert_snapshot-parts s db d h = (ground arith, ground arith)

-- after the row of the job, the table of snapshots
Saved : CallbackEnv → CompleteRequest → Job → JobStatus → Db → Db → Type 0
Saved env req job to mid d =
    (d.jobs ≡ mid.jobs) × (d.snapshots ≡ snapshots_after env req job to mid)

get_job-same : (id : ℕ) (d mid : Db) → d.jobs ≡ mid.jobs → get_job id d ≡ get_job id mid
unfolding get_job
get_job-same id d mid e = rw e refl

get_job-has_id : (id : ℕ) (db : Db) {j : Job} → get_job id db ≡ some j → j.id ≡ id
unfolding get_job
get_job-has_id id db {j} h = (==_iff j.id id).0 (find_sound (has_id id) db.jobs h)

get_job-ended :
    (now id : ℕ) (to : JobStatus) (m : Option String) (db : Db) {j : Job}
    → get_job id db ≡ some j
    → get_job id (update_job_status now j.id to m db) ≡ some (set_status now to m j)
get_job-ended now id to m db {j} h =
    let same : j.id ≡ id = get_job-has_id id db h in
    ground (arith, get_job-update_job_status now id j.id to m db, ==_iff j.id id)

update_job_status-snapshots :
    (now id : ℕ) (to : JobStatus) (m : Option String) (db : Db)
    → (update_job_status now id to m db).snapshots ≡ db.snapshots
unfolding update_job_status
update_job_status-snapshots now id to m db = refl

module _ (env : CallbackEnv) (ctx_id : String) (db : Db) where
  save_snapshot-Ensures :
      (req : CompleteRequest) (job : Job) (to : JobStatus) (mid : Db)
      → Ensures
          (λ _. Saved env req job to mid)
          (λ r _. CompleteOutcome env ctx_id db r db)
          (save_snapshot env req job to)
          mid
  unfolding save_snapshot Saved
  save_snapshot-Ensures req job succeeded mid =
      Ensures-stop_if _ _ _ _ (λ _. refused 500 internal (omega arith))
        (λ _. Ensures-get _ _ (
          Ensures-require _ _ _ _ (λ _. refused 500 internal (omega arith))
            (λ d h. Ensures-modify_last _ _ (insert_snapshot-parts _ mid d h))))
  save_snapshot-Ensures req job queued mid = Ensures-pure _ _ (refl, refl)
  save_snapshot-Ensures req job running mid = Ensures-pure _ _ (refl, refl)
  save_snapshot-Ensures req job failed mid = Ensures-pure _ _ (refl, refl)
  save_snapshot-Ensures req job cancelled mid = Ensures-pure _ _ (refl, refl)
  save_snapshot-Ensures req job superseded mid = Ensures-pure _ _ (refl, refl)

  -- the facts that hold once the request is accepted and the row is locked
  module _ (req : CompleteRequest) (id : ℕ) (valid : complete_valid env req ≡ true)
      (scanned : env.scan_uuid ctx_id ≡ some id) where
    Saved-ended :
        (job : Job) (to : JobStatus)
        → get_job id db ≡ some job
        → is_terminal job.status ≡ false
        → parse_status req.status ≡ some to
        → (d : Db)
        → Saved env req job to (update_job_status env.now job.id to (message_of env req) db) d
        → CompleteOutcome env ctx_id db (ok_status req.status) d
    unfolding Saved
    Saved-ended job to found live parsed d (jobs, snaps) =
        let mid = update_job_status env.now job.id to (message_of env req) db in
        let same : mid.snapshots ≡ db.snapshots =
          update_job_status-snapshots env.now job.id to (message_of env req) db in
        ended req id job to d valid scanned found live parsed
          (get_job-same id d mid jobs ∙ get_job-ended env.now id to (message_of env req) db found)
          (snaps ∙ ap (λ s. if is_succeeded to then s ++ snapshot_of env req job ∷ [] else s) same)

    finish_job-Ensures :
        (job : Job)
        → get_job id db ≡ some job
        → is_terminal job.status ≡ false
        → Ensures
            (CompleteOutcome env ctx_id db)
            (λ r _. CompleteOutcome env ctx_id db r db)
            (finish_job env req job)
            db
    unfolding finish_job
    finish_job-Ensures job found live =
        Ensures-stop_if _ _ _ _ (λ _. refused 500 internal (omega arith))
          (λ _.
            Ensures-require _ _ _ _ (λ _. refused 500 internal (omega arith))
              (λ to parsed. Ensures-modify _ _ _ (
                Ensures-bind
                  (λ _.
                    Saved env req job to
                      (update_job_status env.now job.id to (message_of env req) db))
                  _ _ _ (save_snapshot-Ensures req job to _)
                  (λ _ d saved.
                    Ensures-stop_if _ _ _ _ (λ _. refused 500 internal (omega arith))
                      (λ _. Ensures-pure _ _ (Saved-ended job to found live parsed d saved))))))

    complete_tx-Ensures :
        Ensures
          (CompleteOutcome env ctx_id db)
          (λ r _. CompleteOutcome env ctx_id db r db)
          (complete_tx env req id)
          db
    unfolding complete_tx lock_job complete_locked
    complete_tx-Ensures =
        Ensures-bind (λ job d. (d ≡ db) × (get_job id db ≡ some job)) _ _ _
          (Ensures-stop_if _ _ _ _ (λ _. refused 500 internal (omega arith))
            (λ _. Ensures-get _ _ (
              Ensures-require_last _ _ _ (λ _. refused 404 job_not_found (omega arith))
                (λ job h. (refl, h)))))
          (λ job d (same, found). rw same (
            Ensures-if _ _ _ _ (λ t. Ensures-pure _ _ (already_ended id job scanned found t))
              (λ live. finish_job-Ensures job found live)))

  -- Whatever fails, a completion ends in one of three ways: it is refused with a code from 400 on
  -- and the database is as it was; it answers 200 with the status of a job that had already ended
  -- and the database is as it was; or it answers 200 for an accepted request, the job named by the
  -- token was not terminal and now has the requested status and message, and one snapshot row was
  -- added if that status is `succeeded` and none otherwise.
  pub complete-outcome :
      (body : Option CompleteRequest)
      → CompleteOutcome env ctx_id db
          (complete env ctx_id body db).0
          (complete env ctx_id body db).1
  unfolding complete complete_steps
  complete-outcome body = run_meets _ db (
      Ensures-require _ _ _ _ (λ _. refused 400 invalid_request_body (omega arith))
        (λ req _.
          Ensures-stop_unless _ _ _ _ (λ _. refused 400 validation (omega arith))
            (λ valid.
              Ensures-stop_unless _ _ _ _ (λ _. refused 400 job_id_mismatch (omega arith))
                (λ same.
                  Ensures-require _ _ _ _ (λ _. refused 400 invalid_job_id (omega arith))
                    (λ id scanned.
                      Ensures-stop_if _ _ _ _ (λ _. refused 500 internal (omega arith))
                        (λ _. Ensures-transaction _ _ (
                          complete_tx-Ensures req id valid (
                            subst (λ s. env.scan_uuid s ≡ some id)
                              ((eq_iff req.job_id ctx_id).0 same) scanned))))))))
