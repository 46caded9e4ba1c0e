-- ===== src/Jobs/Push/Effect.antt =====
-- What each outcome of a push says of the database.
use zagforge_mvp.Prelude.{
  ℕ, ◌+◌, String, ◌≡◌, refl, sym, Bool, true, ◌&&◌, Option, none, some, List, [], ◌∷◌, ◌++◌, arith,
  find, length, str_eq, eq_iff, ==_refl, any_where, sort_by, select_where, update_where, find_sound,
  any_where_of_find, any_where_mono, any_where-sort_by, any_where-select_where,
  any_where-update_where, any_where-append,
}
use zagforge_mvp.Prelude.Outcome.{
  Ensures, Ensures-pure, Ensures-stop_if, Ensures-get, Ensures-modify, Ensures-require,
  Ensures-transaction, Ensures-bind, run_meets,
}
use zagforge_mvp.Jobs.Model.{is_queued, Job, Repository, Db}
use zagforge_mvp.Jobs.Queries.{
  active_on, has_id, queued_with_id, set_commit_sha, new_job, nullif_empty, delivery_taken,
  get_repo_by_github_id, get_active_jobs_for_branch, create_job, update_job_commit_sha,
}
use zagforge_mvp.Jobs.Queue.{waits_on}
use zagforge_mvp.Jobs.Push.{
  PushEvent, PushEnv, Pushed, push_failed, not_registered, duplicate_delivery, updated_in_place,
  created, Committed, updated, inserted, update_queued, insert_queued, update_or_insert, push_tx,
  after_commit, push_steps, handle_push,
}

-- a job that waits on the branch with the pushed commit
abbrev pub waits_with : ℕ → PushEvent → Job → Bool
waits_with repo event j = waits_on repo event.branch j && str_eq j.commit_sha event.commit_sha

str_eq_refl : (s : String) → str_eq s s ≡ true
str_eq_refl s = (eq_iff s s).1 refl

length-update_where :
    (q : Job → Bool) (f : Job → Job) (xs : List Job) → length (update_where q f xs) ≡ length xs
length-update_where q f [] = refl
length-update_where q f (x ∷ xs) = omega (arith, length-update_where q f xs)

length-snoc : (xs : List Job) (y : Job) → length (xs ++ y ∷ []) ≡ length xs + 1
length-snoc [] y = refl
length-snoc (x ∷ xs) y = omega (arith, length-snoc xs y)

-- the chosen job is a row of the table that waits on the branch
chosen_row :
    (repo : ℕ) (branch : String) (db : Db) {j : Job}
    → find (λ k. is_queued k.status) (get_active_jobs_for_branch repo branch db) ≡ some j
    → any_where (λ k. has_id j.id k && waits_on repo branch k) db.jobs ≡ true
unfolding get_active_jobs_for_branch
chosen_row repo branch db {j} h =
    let shown = select_where (active_on repo branch) db.jobs in
    let sorted = sort_by (λ k. k.created_at) shown in
    let row : Job → Bool = λ k. has_id j.id k && is_queued k.status in
    let passes : is_queued j.status ≡ true = find_sound (λ k. is_queued k.status) sorted h in
    let in_sorted : any_where row sorted ≡ true =
      any_where_of_find (λ k. is_queued k.status) row sorted h (ground (arith, ==_refl j.id)) in
    let in_shown : any_where row shown ≡ true =
      rw (sym (any_where-sort_by (λ k. k.created_at) row shown)) in_sorted in
    any_where_mono (λ k. row k && active_on repo branch k)
      (λ k. has_id j.id k && waits_on repo branch k) db.jobs (λ k e. ground arith)
      (any_where-select_where row (active_on repo branch) db.jobs in_shown)

waits_after_update :
    (now repo id : ℕ) (event : PushEvent) (db : Db)
    → any_where (λ k. has_id id k && waits_on repo event.branch k) db.jobs ≡ true
    → any_where (waits_with repo event) (update_job_commit_sha now id event.commit_sha db).jobs
      ≡ true
unfolding update_job_commit_sha
waits_after_update now repo id event db h =
    any_where-update_where (λ k. has_id id k && waits_on repo event.branch k) (queued_with_id id)
      (waits_with repo event) (set_commit_sha now event.commit_sha) db.jobs
      (λ k e. (ground arith, ground (arith, str_eq_refl event.commit_sha))) h

waits_after_create :
    (now id repo : ℕ) (event : PushEvent) (delivery : String) (db db' : Db)
    → create_job now id repo event.branch event.commit_sha delivery db ≡ some db'
    → any_where (waits_with repo event) db'.jobs ≡ true
unfolding create_job
waits_after_create now id repo event delivery db db' h = ground (
  arith,
  str_eq_refl event.commit_sha,
  str_eq_refl event.branch,
  any_where-append (waits_with repo event) db.jobs
      (new_job now id repo event.branch event.commit_sha (nullif_empty delivery) ∷ []),
)

-- What each outcome of a push says of the database `db` before it and the database `d` after it.
abbrev pub PushOutcome : PushEvent → String → Db → Pushed → Db → Type 0
PushOutcome event delivery db push_failed d = d ≡ db
PushOutcome event delivery db not_registered d =
    (d ≡ db) × (get_repo_by_github_id event.repo_id db ≡ none)
PushOutcome event delivery db duplicate_delivery d =
    (d ≡ db) × (delivery_taken (nullif_empty delivery) db.jobs ≡ true)
PushOutcome event delivery db (updated_in_place id) d =
    (repo : Repository) × (get_repo_by_github_id event.repo_id db ≡ some repo)
    × (any_where (waits_with repo.id event) d.jobs ≡ true)
    × (length d.jobs ≡ length db.jobs)
PushOutcome event delivery db (created id enqueued) d =
    (repo : Repository) × (get_repo_by_github_id event.repo_id db ≡ some repo)
    × (any_where (waits_with repo.id event) d.jobs ≡ true)
    × (length d.jobs ≡ length db.jobs + 1)

abbrev CommitOutcome : PushEvent → Db → Committed → Db → Type 0
CommitOutcome event db (updated id) d =
    (repo : Repository) × (get_repo_by_github_id event.repo_id db ≡ some repo)
    × (any_where (waits_with repo.id event) d.jobs ≡ true)
    × (length d.jobs ≡ length db.jobs)
CommitOutcome event db (inserted id) d =
    (repo : Repository) × (get_repo_by_github_id event.repo_id db ≡ some repo)
    × (any_where (waits_with repo.id event) d.jobs ≡ true)
    × (length d.jobs ≡ length db.jobs + 1)

length-update_job_commit_sha :
    (now id : ℕ) (sha : String) (db : Db)
    → length (update_job_commit_sha now id sha db).jobs ≡ length db.jobs
unfolding update_job_commit_sha
length-update_job_commit_sha now id sha db =
    length-update_where (queued_with_id id) (set_commit_sha now sha) db.jobs

length-create_job :
    (now id repo : ℕ) (branch sha delivery : String) (db db' : Db)
    → create_job now id repo branch sha delivery db ≡ some db'
    → length db'.jobs ≡ length db.jobs + 1
unfolding create_job
length-create_job now id repo branch sha delivery db db' h =
    ground (arith, length-snoc db.jobs (new_job now id repo branch sha (nullif_empty delivery)))

create_job-none :
    (now id repo : ℕ) (branch sha delivery : String) (db : Db)
    → create_job now id repo branch sha delivery db ≡ none
    → delivery_taken (nullif_empty delivery) db.jobs ≡ true
unfolding create_job
create_job-none now id repo branch sha delivery db h = ground arith

module _ (env : PushEnv) (event : PushEvent) (delivery : String) (db : Db) where
  update_or_insert-Ensures :
      (repo : Repository)
      → get_repo_by_github_id event.repo_id db ≡ some repo
      → (o : Option Job)
      → find (λ j. is_queued j.status) (get_active_jobs_for_branch repo.id event.branch db) ≡ o
      → Ensures
          (CommitOutcome event db)
          (λ r _. PushOutcome event delivery db r db)
          (update_or_insert env event delivery repo o)
          db
  unfolding update_or_insert insert_queued update_queued
  update_or_insert-Ensures repo found none e =
      Ensures-stop_if _ _ _ _ (λ _. refl)
        (λ _. Ensures-get _ _ (
          Ensures-require _ _ _ _ (λ h. (refl, create_job-none _ _ _ _ _ _ _ h))
            (λ db' h. Ensures-modify _ _ _ (
              Ensures-stop_if _ _ _ _ (λ _. refl)
                (λ _. Ensures-pure _ _ (
                  repo,
                  found,
                  waits_after_create _ _ _ event delivery db db' h,
                  length-create_job _ _ _ _ _ _ db db' h,
                ))))))
  update_or_insert-Ensures repo found (some j) e =
      Ensures-stop_if _ _ _ _ (λ _. refl)
        (λ _. Ensures-modify _ _ _ (
          Ensures-stop_if _ _ _ _ (λ _. refl)
            (λ _. Ensures-pure _ _ (
              repo,
              found,
              waits_after_update _ repo.id j.id event db (chosen_row repo.id event.branch db e),
              length-update_job_commit_sha _ _ _ db,
            ))))

  push_tx-Ensures :
      Ensures
        (CommitOutcome event db)
        (λ r _. PushOutcome event delivery db r db)
        (push_tx env event delivery)
        db
  unfolding push_tx
  push_tx-Ensures =
      Ensures-stop_if _ _ _ _ (λ _. refl)
        (λ _. Ensures-get _ _ (
          Ensures-require _ _ _ _ (λ h. (refl, h))
            (λ repo found.
              Ensures-stop_if _ _ _ _ (λ _. refl)
                (λ _.
                  Ensures-stop_if _ _ _ _ (λ _. refl)
                    (λ _. update_or_insert-Ensures repo found _ refl)))))

  after_commit-Ensures :
      (c : Committed) (d : Db)
      → CommitOutcome event db c d
      → Ensures
          (PushOutcome event delivery db)
          (PushOutcome event delivery db)
          (after_commit env event delivery c)
          d
  unfolding after_commit
  after_commit-Ensures (updated id) d h = Ensures-pure _ _ h
  after_commit-Ensures (inserted id) d h = Ensures-pure _ _ h

  -- Whatever fails, the answer to a push tells what became of the database. An error left it as it
  -- was; so did a push for a repository that is not registered, and one whose delivery id is
  -- already recorded. Otherwise a queued job of the branch has the pushed commit, and the table is
  -- as long as before if a job was updated in place and one row longer if one was created.
  pub handle_push-outcome :
      PushOutcome event delivery db
        (handle_push env event delivery db).0
        (handle_push env event delivery db).1
  unfolding handle_push push_steps
  handle_push-outcome = run_meets _ db (
      Ensures-stop_if _ _ _ _ (λ _. refl)
        (λ _.
          Ensures-bind (CommitOutcome event db) _ _ _ (Ensures-transaction _ _ push_tx-Ensures)
            after_commit-Ensures))
