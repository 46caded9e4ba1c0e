-- ===== src/Jobs/Poller/Sound.antt =====
-- The poller keeps a valid database valid, whatever statements fail.
use zagforge_mvp.Prelude.{
  ℕ, zero, suc, ◌+◌, ◌-◌, ◌≤◌, ◌≡◌, refl, Bool, true, Option, none, some, arith, Option-cases,
  Bool-cases, inl, inr,
}
use zagforge_mvp.Jobs.Model.{
  failed, Job, Repository, Db, claim_job as claim_query, update_job_status as update_status,
}
use zagforge_mvp.Jobs.Queries.{start_claimed, oldest_where, claimable, get_job, claim_job}
use zagforge_mvp.Jobs.History.{oldest_where_row}
use zagforge_mvp.Jobs.Rows.{find-update_where}
use zagforge_mvp.Jobs.Validity.{
  IsValid, Sound, Sound-refl, Sound-trans, Sound-claim_job, Sound-update_job_status,
}
use zagforge_mvp.Jobs.Poller.{
  ClaimEnv, give_up, look_up, hand_over, after_claim, claim_one, poll_loop, poll_batch,
  is_running_job,
}

-- what RETURNING shows is the row that the key finds afterwards, and it runs
pub claim_row-found :
    (now : ℕ) (locked : ℕ → Bool) {db : Db} (v : IsValid db) (job : Job) (db' : Db)
    → claim_job now locked db ≡ some (job, db')
    → (k : Job) × (get_job k.id db ≡ some k)
      × (claimable locked k ≡ true)
      × (job ≡ start_claimed now k)
      × (get_job job.id db' ≡ some job)
unfolding claim_job get_job
claim_row-found now locked {db} v job db' h =
    elim (Option-cases (oldest_where (claimable locked) db.jobs)) [
      | inl e ↦ absurd (ground arith)
      | inr (k, e) ↦
          let (row, free) = oldest_where_row (claimable locked) db.jobs v.unique e in
          (
            k,
            row,
            free,
            ground arith,
            ground (arith, find-update_where k.id (start_claimed now) db.jobs (λ x. refl)),
          )
    ]

module _ (env : ClaimEnv) {db : Db} (v : IsValid db) where
  open env use {fails, now, locked}

  give_up-Sound :
      (job : Job) (db' : Db)
      → claim_job now locked db ≡ some (job, db')
      → Sound db (give_up env job db')
  unfolding give_up
  give_up-Sound job db' h = elim (Bool-cases (fails update_status)) [
    | inl e ↦ rw e (Sound-claim_job v now locked h)
    | inr e ↦
        let claimed = Sound-claim_job v now locked h in
        let (k, row, free, same, found) = claim_row-found now locked v job db' h in
        rw e (
          Sound-trans claimed (
            Sound-update_job_status claimed.valid now job.id failed (some "repo not found for job")
              found (ground arith) (ground arith) refl))
  ]

  hand_over-Sound :
      (job : Job) (db' : Db) (repo : Option Repository)
      → claim_job now locked db ≡ some (job, db')
      → Sound db (hand_over env job db' repo).1
  unfolding hand_over
  hand_over-Sound job db' none h = give_up-Sound job db' h
  hand_over-Sound job db' (some repo) h = Sound-claim_job v now locked h

  after_claim-Sound :
      (o : Option (Job × Db)) → claim_job now locked db ≡ o → Sound db (after_claim env o db).1
  unfolding after_claim
  after_claim-Sound none h = Sound-refl v
  after_claim-Sound (some (job, db')) h = hand_over-Sound job db' (look_up env job db') h

  -- One claim of the poller keeps the database valid and the history of every job, also where the
  -- repository is not found and the claimed job is failed.
  pub claim_one-Sound : Sound db (claim_one env db).1
  unfolding claim_one
  claim_one-Sound = elim (Bool-cases (fails claim_query)) [
    | inl e ↦ rw e (Sound-refl v)
    | inr e ↦ rw e (after_claim-Sound (claim_job now locked db) refl)
  ]

-- the rounds of a batch, whatever happens in each
pub poll_loop-Sound :
    (env : ℕ → ClaimEnv) (cancelled : ℕ → Bool) (slots : ℕ) {db : Db}
    → IsValid db
    → Sound db (poll_loop env cancelled slots db).1
unfolding poll_loop
poll_loop-Sound env cancelled zero v = Sound-refl v
poll_loop-Sound env cancelled (suc slots) {db} v =
    let first = claim_one-Sound (env slots) v in
    let rest = Sound-trans first (poll_loop-Sound env cancelled slots first.valid) in
    elim (Bool-cases (cancelled slots)) [
      | inl e ↦ rw e (Sound-refl v)
      | inr e ↦ elim (Bool-cases (is_running_job (claim_one (env slots) db).0)) [
        | inl r ↦ rw (e, r) rest
        | inr r ↦ rw (e, r) first
      ]
    ]

-- a batch hands over at most as many jobs as there are rounds
pub poll_loop-le :
    (env : ℕ → ClaimEnv) (cancelled : ℕ → Bool) (slots : ℕ) (db : Db)
    → (poll_loop env cancelled slots db).0 ≤ slots
unfolding poll_loop
poll_loop-le env cancelled zero db = omega arith
poll_loop-le env cancelled (suc slots) db =
    ground (arith, poll_loop-le env cancelled slots (claim_one (env slots) db).1)

-- After a batch the jobs in flight are at most the limit, if they were at most the limit before; and
-- the batch keeps a valid database valid, with the history of every job.
pub poll_batch-within_limit :
    (env : ℕ → ClaimEnv) (cancelled : ℕ → Bool) (max_concurrency in_flight : ℕ) {db : Db}
    → IsValid db
    → in_flight ≤ max_concurrency
    → (in_flight + (poll_batch env cancelled max_concurrency in_flight db).0 ≤ max_concurrency)
      × Sound db (poll_batch env cancelled max_concurrency in_flight db).1
unfolding poll_batch
poll_batch-within_limit env cancelled max_concurrency in_flight {db} v h = (
  omega (arith, poll_loop-le env cancelled (max_concurrency - in_flight) db),
  poll_loop-Sound env cancelled (max_concurrency - in_flight) v,
)
