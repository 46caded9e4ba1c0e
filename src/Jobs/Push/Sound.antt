-- ===== src/Jobs/Push/Sound.antt =====
-- A push keeps a valid database valid, whatever statements fail.
use zagforge_mvp.Prelude.{String, ◌≡◌, refl, Option, none, some}
use zagforge_mvp.Prelude.FlowLaws.{
  Leaves, Leaves-stop_if, Leaves-bind, Leaves-transaction, step_rules, at-run,
}
use zagforge_mvp.Jobs.Model.{Job, Repository, Db}
use zagforge_mvp.Jobs.Push.{
  PushEvent, PushEnv, Committed, updated, inserted, update_queued, insert_queued, update_or_insert,
  push_tx, after_commit, push_steps, handle_push,
}
use zagforge_mvp.Jobs.Queue.{waiting, none-waiting}
use zagforge_mvp.Jobs.Validity.{
  IsValid, Sound, Sound-refl, Fresh, Sound-update_job_commit_sha, Sound-create_job,
}

module _ (env : PushEnv) (event : PushEvent) (delivery : String) {db : Db} (v : IsValid db) where
  open env use {now, new_id}

  update_queued-Sound : (j : Job) → Leaves (Sound db) (update_queued env event delivery j) db
  unfolding update_queued
  update_queued-Sound j =
      search (step_rules, Sound-refl v, Sound-update_job_commit_sha v now j.id event.commit_sha)
        depth 12

  insert_queued-Sound :
      (r : Repository)
      → Fresh new_id db
      → waiting r.id event.branch db ≡ 0
      → Leaves (Sound db) (insert_queued env event delivery r) db
  unfolding insert_queued
  insert_queued-Sound r fresh z =
      search
        (
          step_rules,
          Sound-refl v,
          Sound-create_job v now new_id r.id event.branch event.commit_sha delivery,
        )
        depth 12

  update_or_insert-Sound :
      (r : Repository) (o : Option Job)
      → Fresh new_id db
      → (o ≡ none → waiting r.id event.branch db ≡ 0)
      → Leaves (Sound db) (update_or_insert env event delivery r o) db
  unfolding update_or_insert
  update_or_insert-Sound r none fresh z = insert_queued-Sound r fresh (z refl)
  update_or_insert-Sound r (some j) fresh z = update_queued-Sound j

  push_tx-Sound : Fresh new_id db → Leaves (Sound db) (push_tx env event delivery) db
  unfolding push_tx
  push_tx-Sound fresh =
      search (step_rules, Sound-refl v, update_or_insert-Sound, none-waiting) depth 12

  after_commit-Sound :
      (c : Committed) {db' : Db}
      → Sound db db'
      → Leaves (Sound db) (after_commit env event delivery c) db'
  unfolding after_commit
  after_commit-Sound (updated id) s = search step_rules
  after_commit-Sound (inserted id) s = search step_rules

  push_steps-Sound : Fresh new_id db → Leaves (Sound db) (push_steps env event delivery) db
  unfolding push_steps
  push_steps-Sound fresh = Leaves-stop_if _ _ _ db (Sound-refl v) λ _.
      Leaves-bind _ _ db (Leaves-transaction _ db (Sound-refl v) (push_tx-Sound fresh))
        (λ c d' _ s. after_commit-Sound c s)

  -- After a push whose new id is fresh the primary key and the bound of one queued job for each
  -- branch still hold, and every job of the database is where it was: same repository, branch and
  -- delivery, no earlier stage, unchanged if it was terminal, another commit only if it was queued.
  pub handle_push-Sound : Fresh new_id db → Sound db (handle_push env event delivery db).1
  unfolding handle_push
  handle_push-Sound fresh = at-run (push_steps env event delivery) db (push_steps-Sound fresh)
