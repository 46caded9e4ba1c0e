-- ===== src/Jobs/Poller/Effect.antt =====
-- Which job a claim takes, and what it leaves.
use zagforge_mvp.Prelude.{
  ℕ, ◌≤◌, ◌≡◌, refl, Bool, true, false, Option, none, some, arith, List, [], ◌∷◌, All, any_where,
  ==_refl, if◌then◌else◌, leb, Option-cases, Bool-cases, inl, inr,
}
use zagforge_mvp.Jobs.Model.{
  failed, Job, Repository, Db, claim_job as claim_query, update_job_status as update_status,
}
use zagforge_mvp.Jobs.Queries.{
  older, oldest_where, claimable, start_claimed, get_job, claim_job, set_status, get_repo_for_job,
}
use zagforge_mvp.Jobs.History.{oldest_where_row}
use zagforge_mvp.Jobs.Rows.{find-update_where, get_job-update_job_status}
use zagforge_mvp.Jobs.Validity.{IsValid}
use zagforge_mvp.Jobs.Poller.{
  ClaimEnv, Claim, no_jobs, claim_failed, repo_not_found, running_job, give_up, look_up, hand_over,
  after_claim, claim_one,
}

-- no claimable job was created before `k`
abbrev pub IsOldest : (ℕ → Bool) → Job → List Job → Type 0
IsOldest locked k jobs = All (λ x. claimable locked x ≡ true → k.created_at ≤ x.created_at) jobs

All-mono : (P Q : Job → Type 0) (xs : List Job) → ((x : Job) → P x → Q x) → All P xs → All Q xs
All-mono P Q [] h a = tt
All-mono P Q (x ∷ xs) h a = (h x a.0, All-mono P Q xs h a.1)

older-none : (j : Job) (o : Option Job) → older j o ≡ none → ⊥
older-none j none h = ground arith
older-none j (some k) h = ground arith

oldest_where-none :
    (p : Job → Bool) (xs : List Job) → oldest_where p xs ≡ none → any_where p xs ≡ false
oldest_where-none p [] h = refl
oldest_where-none p (x ∷ xs) h = elim (Bool-cases (p x)) [
  | inl e ↦ absurd (older-none x (oldest_where p xs) (ground arith))
  | inr e ↦ ground (arith, oldest_where-none p xs)
]

All_none :
    (locked : ℕ → Bool) (k : Job) (xs : List Job)
    → any_where (claimable locked) xs ≡ false
    → IsOldest locked k xs
All_none locked k [] h = tt
All_none locked k (x ∷ xs) h = (λ e. ground arith, All_none locked k xs (ground arith))

-- the younger of two rows waits behind the older
older_le :
    (j : Job) (o : Option Job) {k : Job}
    → older j o ≡ some k
    → (k.created_at ≤ j.created_at) × ((m : Job) → o ≡ some m → k.created_at ≤ m.created_at)
older_le j none h = (ground arith, λ m e. ground arith)
older_le j (some l) {k} h = elim (Bool-cases (leb j.created_at l.created_at)) [
  | inl e ↦ (ground arith, λ m f. ground arith)
  | inr e ↦ (ground arith, λ m f. ground arith)
]

oldest_where-IsOldest :
    (locked : ℕ → Bool) (xs : List Job) {k : Job}
    → oldest_where (claimable locked) xs ≡ some k
    → IsOldest locked k xs
oldest_where-IsOldest locked [] h = tt
oldest_where-IsOldest locked (x ∷ xs) {k} h = elim (Bool-cases (claimable locked x)) [
  | inr e ↦ (λ f. ground arith, oldest_where-IsOldest locked xs {k = k} (ground arith))
  | inl e ↦
      let won : older x (oldest_where (claimable locked) xs) ≡ some k = ground arith in
      let (first, second) = older_le x (oldest_where (claimable locked) xs) won in
      (
        λ _. first,
        elim (Option-cases (oldest_where (claimable locked) xs)) [
          | inl n ↦ All_none locked k xs (oldest_where-none (claimable locked) xs n)
          | inr (m, f) ↦
              All-mono _ _ xs (λ y g c. omega (arith, g c, second m f))
                (oldest_where-IsOldest locked xs {k = m} f)
        ],
      )
]

-- `k` is the row that a claim takes from `db`
pub record Chosen (locked : ℕ → Bool) (db : Db) (k : Job) : Type 0 where
  pub row : get_job k.id db ≡ some k
  pub free : claimable locked k ≡ true
  pub oldest : IsOldest locked k db.jobs

-- What each outcome of a claim says of the database before it and after it. `k` is the row as it
-- was before the claim.
pub data ClaimOutcome (env : ClaimEnv) (db : Db) : Claim → Db → Type 0 where
  failed_claim : ClaimOutcome env db claim_failed db
  nothing_to_claim :
      any_where (claimable env.locked) db.jobs ≡ false → ClaimOutcome env db no_jobs db
  claimed :
      (k : Job) (repo : Repository) (d : Db)
      → Chosen env.locked db k
      → get_job k.id d ≡ some (start_claimed env.now k)
      → get_repo_for_job k.id d ≡ some repo
      → ClaimOutcome env db (running_job (start_claimed env.now k) repo) d
  given_up :
      (k : Job) (d : Db)
      → Chosen env.locked db k
      → get_job k.id d
        ≡ some (
            if env.fails update_status
            then start_claimed env.now k
            else set_status env.now failed
                (some "repo not found for job")
                (start_claimed env.now k))
      → ClaimOutcome env db repo_not_found d

claim_job-none :
    (now : ℕ) (locked : ℕ → Bool) (db : Db)
    → claim_job now locked db ≡ none
    → any_where (claimable locked) db.jobs ≡ false
unfolding claim_job
claim_job-none now locked db h = elim (Option-cases (oldest_where (claimable locked) db.jobs)) [
  | inl e ↦ oldest_where-none (claimable locked) db.jobs e
  | inr (k, e) ↦ absurd (ground arith)
]

claim_job-Chosen :
    (now : ℕ) (locked : ℕ → Bool) {db : Db} (v : IsValid db) (job : Job) (d : Db)
    → claim_job now locked db ≡ some (job, d)
    → (k : Job) × Chosen locked db k
      × (job ≡ start_claimed now k)
      × (get_job k.id d ≡ some (start_claimed now k))
unfolding claim_job get_job
claim_job-Chosen now locked {db} v job d h =
    elim (Option-cases (oldest_where (claimable locked) db.jobs)) [
      | inl e ↦ absurd (ground arith)
      | inr (k, e) ↦
          let (row, free) = oldest_where_row (claimable locked) db.jobs v.unique e in
          let found : get_job k.id d ≡ some (start_claimed now k) =
            ground (arith, find-update_where k.id (start_claimed now) db.jobs (λ x. refl)) in
          let chosen : Chosen locked db k = record {
            row = row;
            free = free;
            oldest = oldest_where-IsOldest locked db.jobs e;
          } in
          (k, chosen, ground arith, found)
    ]

module _ (env : ClaimEnv) {db : Db} (v : IsValid db) where
  give_up-row :
      (k : Job) (d : Db)
      → get_job k.id d ≡ some (start_claimed env.now k)
      → get_job k.id (give_up env (start_claimed env.now k) d)
        ≡ some (
            if env.fails update_status
            then start_claimed env.now k
            else set_status env.now failed
                (some "repo not found for job")
                (start_claimed env.now k))
  unfolding give_up
  give_up-row k d h = ground (
    arith,
    ==_refl k.id,
    get_job-update_job_status env.now k.id k.id failed (some "repo not found for job") d,
  )

  look_up-repo :
      (job : Job) (d : Db) (repo : Repository)
      → look_up env job d ≡ some repo
      → get_repo_for_job job.id d ≡ some repo
  unfolding look_up
  look_up-repo job d repo h = ground arith

  hand_over-outcome :
      (k : Job) (d : Db) (o : Option Repository)
      → Chosen env.locked db k
      → get_job k.id d ≡ some (start_claimed env.now k)
      → look_up env (start_claimed env.now k) d ≡ o
      → ClaimOutcome env db
          (hand_over env (start_claimed env.now k) d o).0
          (hand_over env (start_claimed env.now k) d o).1
  unfolding hand_over
  hand_over-outcome k d none c found e = given_up k _ c (give_up-row k d found)
  hand_over-outcome k d (some repo) c found e =
      claimed k repo d c found (look_up-repo (start_claimed env.now k) d repo e)

  after_claim-outcome :
      (o : Option (Job × Db))
      → claim_job env.now env.locked db ≡ o
      → ClaimOutcome env db (after_claim env o db).0 (after_claim env o db).1
  unfolding after_claim
  after_claim-outcome none h = nothing_to_claim (claim_job-none env.now env.locked db h)
  after_claim-outcome (some (job, d)) h =
      let (k, chosen, same, found) = claim_job-Chosen env.now env.locked v job d h in
      rw same (hand_over-outcome k d _ chosen found refl)

  -- Jobs are claimed in the order of their creation. A claim over a valid database that is handed
  -- to the runner took the queued row, locked by no other transaction, that no other such row is
  -- older than, and the row is running afterwards; without a repository the row is failed
  -- afterwards, or left running when that statement fails too; "no jobs" means that there is no
  -- such row, and then, as when the claim's own statement fails, the database is as it was.
  pub claim_one-outcome : ClaimOutcome env db (claim_one env db).0 (claim_one env db).1
  unfolding claim_one
  claim_one-outcome = elim (Bool-cases (env.fails claim_query)) [
    | inl e ↦ rw e failed_claim
    | inr e ↦ rw e (after_claim-outcome (claim_job env.now env.locked db) refl)
  ]
