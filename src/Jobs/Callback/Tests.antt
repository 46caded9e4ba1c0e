-- ===== src/Jobs/Callback/Tests.antt =====
-- A completion that is sent twice.
use zagforge_mvp.Prelude.{◌≡◌, refl, some}
use zagforge_mvp.Prelude.Flow.{◌>>=◌, transaction, run}
use zagforge_mvp.Jobs.Model.{parse_status}
use zagforge_mvp.Jobs.Queries.{get_job, update_job_status, insert_snapshot}
use zagforge_mvp.Jobs.Fixtures.{start_db, callback_env, request}
use zagforge_mvp.Jobs.Callback.{
  complete_valid, lock_job, save_snapshot, finish_job, complete_locked, complete_tx, complete_steps,
  complete,
}

completed : (complete callback_env "7" (some request) start_db).0.code ≡ 200
unfolding complete complete_steps complete_valid complete_tx lock_job complete_locked finish_job
    save_snapshot get_job update_job_status insert_snapshot parse_status run transaction ◌>>=◌
completed = refl
