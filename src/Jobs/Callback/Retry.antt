-- ===== src/Jobs/Callback/Retry.antt =====
-- A worker that sends its completion again.
use zagforge_mvp.Prelude.{ℕ, String, ◌≡◌, refl, ◌∙◌, true, Option, some, arith}
use zagforge_mvp.Jobs.Model.{is_terminal, Job, Db}
use zagforge_mvp.Jobs.Queries.{get_job}
use zagforge_mvp.Jobs.Callback.{Reply, CompleteRequest, CallbackEnv, complete}
use zagforge_mvp.Jobs.Callback.Sound.{requested_terminal}
use zagforge_mvp.Jobs.Callback.Effect.{
  CompleteOutcome, refused, already_ended, ended, complete-outcome,
}

-- the row of a job that has ended stops every further completion
nothing_left :
    (env : CallbackEnv) (ctx_id : String) (db : Db) {r : Reply} {d : Db} (id : ℕ) (job : Job)
    → CompleteOutcome env ctx_id db r d
    → env.scan_uuid ctx_id ≡ some id
    → get_job id db ≡ some job
    → is_terminal job.status ≡ true
    → d ≡ db
nothing_left env ctx_id db id job (refused code e le) scanned found t = refl
nothing_left env ctx_id db id job (already_ended id' job' s f t') scanned found t = refl
nothing_left env ctx_id db id job (ended req id' job' to d valid s f live p g sn) scanned found t =
    absurd (cc)

-- A job that has ended is left alone by every completion call for it, together with the rest of
-- the database.
pub complete-ended :
    (env : CallbackEnv) (ctx_id : String) (body : Option CompleteRequest) (db : Db) (id : ℕ)
    (job : Job)
    → env.scan_uuid ctx_id ≡ some id
    → get_job id db ≡ some job
    → is_terminal job.status ≡ true
    → (complete env ctx_id body db).1 ≡ db
complete-ended env ctx_id body db id job scanned found t =
    nothing_left env ctx_id db id job (complete-outcome env ctx_id db body) scanned found t

-- after an answer 200 the job of the token has ended
ended_after :
    (env : CallbackEnv) (ctx_id : String) (db : Db) {r : Reply} {d : Db}
    → CompleteOutcome env ctx_id db r d
    → r.code ≡ 200
    → (id : ℕ) × (job : Job) × (env.scan_uuid ctx_id ≡ some id)
      × (get_job id d ≡ some job)
      × (is_terminal job.status ≡ true)
ended_after env ctx_id db (refused code e le) h = absurd (omega arith)
ended_after env ctx_id db (already_ended id job s f t) h = (id, job, s, f, t)
ended_after env ctx_id db (ended req id job to d valid s f live p g sn) h =
    (id, _, s, g, requested_terminal env req to valid p)

-- Once a completion has answered 200, no later completion with the same token changes the
-- database, whatever it asks for, as long as the text of the job id scans the same way.
pub complete-retry :
    (env later : CallbackEnv) (ctx_id : String) (body body' : Option CompleteRequest) (db : Db)
    → later.scan_uuid ctx_id ≡ env.scan_uuid ctx_id
    → (complete env ctx_id body db).0.code ≡ 200
    → (complete later ctx_id body' (complete env ctx_id body db).1).1
      ≡ (complete env ctx_id body db).1
complete-retry env later ctx_id body body' db same ok =
    let (id, job, s, f, t) = ended_after env ctx_id db (complete-outcome env ctx_id db body) ok in
    complete-ended later ctx_id body' _ id job (same ∙ s) f t
