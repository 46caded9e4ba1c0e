-- ===== src/Jobs/Fixtures.antt =====
-- Small databases and calls, for the tests.
use zagforge_mvp.Prelude.{true, false, none, some, [], ◌∷◌, pos, str_eq, if◌then◌else◌}
use zagforge_mvp.Jobs.Model.{succeeded, Job, Repository, Db, Faults}
use zagforge_mvp.Jobs.Queries.{new_job}
use zagforge_mvp.Jobs.Push.{PushEvent, PushEnv}
use zagforge_mvp.Jobs.Callback.{CallbackEnv, CompleteRequest}
use zagforge_mvp.Jobs.Poller.{ClaimEnv}

abbrev pub no_faults : Faults
no_faults q = false

abbrev pub repo : Repository
repo = record {
  id = 1;
  github_repo_id = 77;
  installation_id = 5;
  full_name = "acme/site";
  default_branch = "main";
}

abbrev pub first_job : Job
first_job = new_job 100 7 1 "main" "aaa" (some "d1")

abbrev pub done_job : Job
done_job = record first_job { id = 6; status = succeeded; delivery_id = some "d0" }

-- one job that has ended and one that waits
abbrev pub start_db : Db
start_db = record { repositories = repo ∷ []; jobs = done_job ∷ first_job ∷ []; snapshots = [] }

abbrev pub push_env : PushEnv
push_env = record { fails = no_faults; now = 200; new_id = 9; enqueue_fails = false }

abbrev pub main_push : PushEvent
main_push = record { repo_id = 77; branch = "main"; commit_sha = "bbb" }

abbrev pub other_push : PushEvent
other_push = record { repo_id = 77; branch = "dev"; commit_sha = "ccc" }

abbrev pub claim_env : ClaimEnv
claim_env = record { fails = no_faults; now = 300; locked = λ id. false }

abbrev pub callback_env : CallbackEnv
callback_env = record {
  is_uuid = λ s. true;
  scan_uuid = λ s. if str_eq s "7" then some 7 else none;
  clone_token = λ id. some "token";
  fails = no_faults;
  now = 400;
  new_id = 50;
}

abbrev pub request : CompleteRequest
request = record {
  job_id = "7";
  status = "succeeded";
  error_message = "";
  snapshot_path = "gs://snapshots/7";
  zigzag_version = "1.0";
  size_bytes = pos 10;
  duration_ms = pos 5;
}
