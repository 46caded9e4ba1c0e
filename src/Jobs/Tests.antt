-- ===== src/Jobs/Tests.antt =====
-- Runs of the job operations on small databases, and the theorems at those runs.
use zagforge_mvp.Prelude.{ℕ, ◌≤◌, ◌≡◌, refl, some, arith}
use zagforge_mvp.Jobs.Model.{Job, Db}
use zagforge_mvp.Jobs.Queries.{get_job}
use zagforge_mvp.Jobs.Fixtures.{
  no_faults, first_job, done_job, start_db, push_env, main_push, other_push, claim_env,
  callback_env, request,
}
use zagforge_mvp.Jobs.Push.{handle_push}
use zagforge_mvp.Jobs.Push.Effect.{PushOutcome, handle_push-outcome}
use zagforge_mvp.Jobs.Callback.{complete}
use zagforge_mvp.Jobs.Callback.Effect.{CompleteOutcome, complete-outcome}
use zagforge_mvp.Jobs.Poller.{claim_one}
use zagforge_mvp.Jobs.Poller.Effect.{ClaimOutcome, claim_one-outcome}
use zagforge_mvp.Jobs.Watchdog.{timeout}
use zagforge_mvp.Jobs.Watchdog.Effect.{Ended, timeout-exact}
use zagforge_mvp.Jobs.Queue.{waiting}
use zagforge_mvp.Jobs.History.{Moves}
use zagforge_mvp.Jobs.Validity.{IsValid}
use zagforge_mvp.Jobs.Lifecycle.{
  push, poll, Reach, here, next, Reach-one_queued, Reach-Moves, Reach-terminal,
}

start_db-IsValid : IsValid start_db
start_db-IsValid = record { unique = (refl, (refl, tt)); one_queued = λ r b. ground arith }

-- a push on the waiting branch, a push on another, and a claim
abbrev pushed_db : Db
pushed_db = (handle_push push_env main_push "d2" start_db).1

abbrev claimed_db : Db
claimed_db = (claim_one claim_env pushed_db).1

trace : Reach start_db claimed_db
trace = next (next here (push push_env main_push "d2" start_db refl)) (poll claim_env pushed_db)

Reach-one_queued_example : waiting 1 "main" claimed_db ≤ 1
Reach-one_queued_example = Reach-one_queued 1 "main" start_db-IsValid trace

start_row : get_job 7 start_db ≡ some first_job
unfolding get_job
start_row = refl

Reach-Moves_example : (k : Job) × (get_job 7 claimed_db ≡ some k) × Moves first_job k
Reach-Moves_example = Reach-Moves 7 start_db-IsValid trace start_row

done_row : get_job 6 start_db ≡ some done_job
unfolding get_job
done_row = refl

Reach-terminal_example : get_job 6 claimed_db ≡ some done_job
Reach-terminal_example = Reach-terminal 6 start_db-IsValid trace done_row refl

handle_push-outcome_example :
    PushOutcome other_push "d3" start_db
      (handle_push push_env other_push "d3" start_db).0
      (handle_push push_env other_push "d3" start_db).1
handle_push-outcome_example = handle_push-outcome push_env other_push "d3" start_db

complete-outcome_example :
    CompleteOutcome callback_env "7" start_db
      (complete callback_env "7" (some request) start_db).0
      (complete callback_env "7" (some request) start_db).1
complete-outcome_example = complete-outcome callback_env "7" start_db (some request)

claim_one-outcome_example :
    ClaimOutcome claim_env start_db
      (claim_one claim_env start_db).0
      (claim_one claim_env start_db).1
claim_one-outcome_example = claim_one-outcome claim_env start_db-IsValid

timeout-exact_example :
    (n : ℕ) × ((timeout no_faults 5000000000 start_db).0 ≡ some n)
    × Ended 5000000000 n start_db (timeout no_faults 5000000000 start_db).1
timeout-exact_example = timeout-exact no_faults 5000000000 start_db refl
