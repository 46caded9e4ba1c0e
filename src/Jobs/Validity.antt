-- ===== src/Jobs/Validity.antt =====
-- What every operation keeps: the primary key, one waiting job for each branch, and the history of
-- the rows. One lemma for each SQL statement of Queries.
use native.Mathlib.Nat.{le_trans}
use zagforge_mvp.Prelude.{
  ℕ, ◌≤◌, String, ◌≡◌, refl, Bool, false, Option, none, some, List, [], ◌∷◌, ◌++◌, arith, ◌==◌,
  update_where, any_where, eq_iff,
}
use zagforge_mvp.Jobs.Model.{JobStatus, is_terminal, is_queued, Job, Db}
use zagforge_mvp.Jobs.Queries.{
  has_id, queued_with_id, set_commit_sha, set_status, new_job, nullif_empty, start_claimed, overdue,
  fail_overdue, claimable, oldest_where, claim_row, get_job, update_job_commit_sha,
  update_job_status, create_job, claim_job, timeout_running_jobs,
}
use zagforge_mvp.Jobs.Queue.{
  waiting, OneQueued, waiting-update_job_commit_sha, waiting-update_job_status, waiting-claim_row,
  waiting-timeout_running_jobs, waiting-create_job,
}
use zagforge_mvp.Jobs.History.{
  rank, Moves-set_commit_sha, Moves-set_status, Moves-start_claimed, Moves-fail_overdue, Evolves,
  Evolves-refl, Evolves-trans, Evolves-append, Evolves-update_where, Evolves-update_row, UniqueIds,
  oldest_where_row,
}

pub record IsValid (db : Db) : Type 0 where
  pub unique : UniqueIds db.jobs
  pub one_queued : OneQueued db

-- what an operation does to the jobs of a valid database
pub record Sound (db db' : Db) : Type 0 where
  pub valid : IsValid db'
  pub evolves : Evolves db.jobs db'.jobs

pub Sound-refl : {db : Db} → IsValid db → Sound db db
Sound-refl {db} v = record { valid = v; evolves = Evolves-refl db.jobs }

pub Sound-trans : {a b c : Db} → Sound a b → Sound b c → Sound a c
Sound-trans {a} {b} {c} s t = record {
  valid = t.valid;
  evolves = Evolves-trans a.jobs b.jobs c.jobs s.evolves t.evolves;
}

-- the other tables do not matter
pub Sound-same_jobs : {db db' db'' : Db} → db''.jobs ≡ db'.jobs → Sound db db' → Sound db db''
Sound-same_jobs {db} {db'} e s = record {
  valid = record {
    unique = rw e s.valid.unique;
    one_queued = λ r b. rw e (s.valid.one_queued r b);
  };
  evolves = rw e s.evolves;
}

-- a fresh primary key
abbrev pub Fresh : ℕ → Db → Type 0
Fresh id db = any_where (has_id id) db.jobs ≡ false

OneQueued-of_le :
    (db db' : Db)
    → OneQueued db
    → ((r : ℕ) (b : String) → waiting r b db' ≤ waiting r b db)
    → OneQueued db'
OneQueued-of_le db db' h k r b = le_trans (k r b) (h r b)

absent-update_where :
    (id : ℕ) (q : Job → Bool) (f : Job → Job) (xs : List Job)
    → ((x : Job) → (f x).id ≡ x.id)
    → any_where (has_id id) (update_where q f xs) ≡ any_where (has_id id) xs
absent-update_where id q f [] h = refl
absent-update_where id q f (x ∷ xs) h = ground (arith, h x, absent-update_where id q f xs h)

UniqueIds-update_where :
    (q : Job → Bool) (f : Job → Job) (xs : List Job)
    → ((x : Job) → (f x).id ≡ x.id)
    → UniqueIds xs
    → UniqueIds (update_where q f xs)
UniqueIds-update_where q f [] h u = tt
UniqueIds-update_where q f (x ∷ xs) h u =
    (ground (arith, h x, absent-update_where x.id q f xs h), UniqueIds-update_where q f xs h u.1)

absent-append :
    (id : ℕ) (xs : List Job) (y : Job)
    → any_where (has_id id) xs ≡ false
    → (y.id == id) ≡ false
    → any_where (has_id id) (xs ++ y ∷ []) ≡ false
absent-append id [] y h k = ground arith
absent-append id (x ∷ xs) y h k = ground (arith, absent-append id xs y)

UniqueIds-append :
    (xs : List Job) (y : Job)
    → any_where (has_id y.id) xs ≡ false
    → UniqueIds xs
    → UniqueIds (xs ++ y ∷ [])
UniqueIds-append [] y h u = (refl, tt)
UniqueIds-append (x ∷ xs) y h u =
    (absent-append x.id xs y u.0 (ground arith), UniqueIds-append xs y (ground arith) u.1)

module _ {db : Db} (v : IsValid db) (now : ℕ) where
  pub Sound-update_job_commit_sha :
      (id : ℕ) (sha : String) → Sound db (update_job_commit_sha now id sha db)
  unfolding update_job_commit_sha
  Sound-update_job_commit_sha id sha = record {
    valid = record {
      unique =
          UniqueIds-update_where (queued_with_id id) (set_commit_sha now sha) db.jobs (λ x. refl)
            v.unique;
      one_queued =
          OneQueued-of_le db (update_job_commit_sha now id sha db) v.one_queued
            (λ r b. waiting-update_job_commit_sha r b now id sha db);
    };
    evolves =
        Evolves-update_where (queued_with_id id) (set_commit_sha now sha) db.jobs
          (λ x h. Moves-set_commit_sha now sha x (ground arith));
  }

  pub Sound-update_job_status :
      (id : ℕ) (s : JobStatus) (m : Option String) {j : Job}
      → get_job id db ≡ some j
      → is_terminal j.status ≡ false
      → rank j.status ≤ rank s
      → is_queued s ≡ false
      → Sound db (update_job_status now id s m db)
  unfolding update_job_status get_job
  Sound-update_job_status id s m {j} row active onward not_queued = record {
    valid = record {
      unique = UniqueIds-update_where (has_id id) (set_status now s m) db.jobs (λ x. refl) v.unique;
      one_queued =
          OneQueued-of_le db (update_job_status now id s m db) v.one_queued
            (λ r b. waiting-update_job_status r b now id s m db not_queued);
    };
    evolves =
        Evolves-update_row id (set_status now s m) db.jobs v.unique row
          (Moves-set_status now s m j active onward);
  }

  pub Sound-claim_job :
      (locked : ℕ → Bool) {j : Job} {db' : Db}
      → claim_job now locked db ≡ some (j, db')
      → Sound db db'
  unfolding claim_job
  Sound-claim_job locked {j} {db'} h = claimed (oldest_where (claimable locked) db.jobs) refl h
    where
      claimed :
          (o : Option Job)
          → oldest_where (claimable locked) db.jobs ≡ o
          → claim_row now db o ≡ some (j, db')
          → Sound db db'
      claimed none e h = cc
      claimed (some k) e h =
          let (row, free) = oldest_where_row (claimable locked) db.jobs v.unique e in
          let after : Db = record db {
            jobs = update_where (has_id k.id) (start_claimed now) db.jobs;
          } in
          let e : db' ≡ after = ground arith in
          rw e (record {
            valid = record {
              unique =
                  UniqueIds-update_where (has_id k.id) (start_claimed now) db.jobs (λ x. refl)
                    v.unique;
              one_queued =
                  OneQueued-of_le db after v.one_queued
                    (λ r b. waiting-claim_row r b now db (some k) refl);
            };
            evolves =
                Evolves-update_row k.id (start_claimed now) db.jobs v.unique row
                  (Moves-start_claimed now k (ground arith));
          })

  pub Sound-timeout_running_jobs : (mins : ℕ) → Sound db (timeout_running_jobs now mins db).1
  unfolding timeout_running_jobs
  Sound-timeout_running_jobs mins = record {
    valid = record {
      unique =
          UniqueIds-update_where (overdue now mins) (fail_overdue now) db.jobs (λ x. refl) v.unique;
      one_queued =
          OneQueued-of_le db (timeout_running_jobs now mins db).1 v.one_queued
            (λ r b. waiting-timeout_running_jobs r b now mins db);
    };
    evolves =
        Evolves-update_where (overdue now mins) (fail_overdue now) db.jobs
          (Moves-fail_overdue now mins);
  }

  waiting_after_create :
      (id r : ℕ) (b sha delivery : String) {db' : Db}
      → waiting r b db ≡ 0
      → create_job now id r b sha delivery db ≡ some db'
      → OneQueued db'
  waiting_after_create id r b sha delivery {db'} z h r' b' = ground (
    arith,
    eq_iff b b',
    v.one_queued r' b',
    waiting-create_job r' b' now id r b sha delivery db {db' = db'} h,
  )

  pub Sound-create_job :
      (id r : ℕ) (b sha delivery : String) {db' : Db}
      → Fresh id db
      → waiting r b db ≡ 0
      → create_job now id r b sha delivery db ≡ some db'
      → Sound db db'
  unfolding create_job
  Sound-create_job id r b sha delivery {db'} fresh z h =
      let row = new_job now id r b sha (nullif_empty delivery) in
      let e : db'.jobs ≡ db.jobs ++ row ∷ [] = ground arith in
      record {
        valid = record {
          unique = rw e (UniqueIds-append db.jobs row fresh v.unique);
          one_queued = waiting_after_create id r b sha delivery z h;
        };
        evolves = rw e (Evolves-append db.jobs (row ∷ []));
      }
