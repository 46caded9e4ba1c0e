-- ===== src/Context/Tests.antt =====
-- A private and a protected token, and requests to them.
use zagforge_mvp.Prelude.{
  ℕ, String, ◌≡◌, ◌≢◌, refl, true, false, Option, none, some, [], ◌∷◌, pos, str_eq, if◌then◌else◌,
}
use zagforge_mvp.Prelude.Bytes.{cut_text}
use zagforge_mvp.Jobs.Model.{Snapshot}
use zagforge_mvp.Workspace.Model.{Membership}
use zagforge_mvp.Context.Model.{private, protected, ContextToken, ContextDb, Faults}
use zagforge_mvp.Context.Queries.{get_member, is_user_allowed_for_token}
use zagforge_mvp.Context.Visit.{
  VisitEnv, shown, granted, check_visibility, extract_claims, head, get_context,
}
use zagforge_mvp.Context.Visit.Rights.{member, check_visibility-MayRead}
use zagforge_mvp.Context.Visit.Shown.{Glance, Visit, visits-Admitted}
use zagforge_mvp.Context.Manage.{ManageEnv, CreateBody, create_token, update_allowed_users}
use zagforge_mvp.Context.Manage.Grants.{update_allowed_users-exact}
use zagforge_mvp.Context.Manage.Made.{CreateOutcome, create_token-outcome}
use zagforge_mvp.Context.Manage.Tidy.{Tidy}
use zagforge_mvp.Context.Reach.{ContextReach, blank, by_create, head-ContextReach}

abbrev old_snapshot : Snapshot
old_snapshot = record {
  id = 11;
  repo_id = 1;
  job_id = none;
  branch = "main";
  commit_sha = "aaa";
  gcs_path = "gs://a";
  snapshot_version = 2;
  zigzag_version = "1";
  size_bytes = pos 1;
  created_at = 50;
}

abbrev new_snapshot : Snapshot
new_snapshot = record old_snapshot { id = 12; commit_sha = "bbb"; created_at = 60 }

abbrev member_row : Membership
member_row = record {
  id = 1;
  user_id = 4;
  org_id = 7;
  role = "member";
  invited_by = none;
  joined_at = 1;
}

abbrev empty_db : ContextDb
empty_db = record {
  users = 3 ∷ 4 ∷ [];
  repositories = record { id = 1; org_id = some 7; default_branch = "main" } ∷ [];
  snapshots = old_snapshot ∷ new_snapshot ∷ [];
  memberships = member_row ∷ [];
  tokens = [];
  allowed_users = [];
}

abbrev private_token : ContextToken
private_token = record {
  id = 20;
  repo_id = 1;
  org_id = some 7;
  target_snapshot_id = none;
  token_hash = "raw";
  label = none;
  last_used_at = none;
  expires_at = some 900;
  created_at = 1;
  user_id = none;
  visibility = private;
}

abbrev protected_token : ContextToken
protected_token = record private_token { id = 21; token_hash = "other"; visibility = protected }

abbrev db : ContextDb
db = record empty_db { tokens = private_token ∷ protected_token ∷ [] }

abbrev no_faults : Faults
no_faults q = false

abbrev user_id_of : String → Option ℕ
user_id_of s = if str_eq s "4" then some 4 else if str_eq s "3" then some 3 else none

abbrev visit_env : VisitEnv
visit_env = record {
  now = 500;
  sha256 = λ s. s;
  verify = λ s. some s;
  scan_uuid = user_id_of;
  fails = no_faults;
  touched = true;
}

abbrev env : ManageEnv
env = record {
  now = 400;
  new_id = 30;
  random_token = some "zf_ctx_1";
  sha256 = λ s. s;
  parse_time = λ s. some 800;
  scan_uuid = user_id_of;
  fails = no_faults;
  insert_fails = λ n. false;
}

check_visibility-MayRead_example : check_visibility visit_env "Bearer 4" private_token db ≡ granted
unfolding extract_claims cut_text get_member
check_visibility-MayRead_example =
    (check_visibility-MayRead visit_env "Bearer 4" private_token db refl refl).1
      (member 4 7 member_row refl ("4", refl, refl) refl refl)

visits-Admitted_example :
    Glance visit_env "raw" "Bearer 4" db
      (head visit_env "raw" "Bearer 4" db).0
      (head visit_env "raw" "Bearer 4" db).1
    × Visit visit_env "raw" "Bearer 4" db
        (get_context visit_env "raw" "Bearer 4" db).0
        (get_context visit_env "raw" "Bearer 4" db).1
visits-Admitted_example = visits-Admitted visit_env "raw" "Bearer 4" db

-- a caller of organization 8 lists user 4 for the token of organization 7
update_allowed_users-exact_example :
    is_user_allowed_for_token 21 4
      (update_allowed_users env (some 8) (some 21) (some ("4" ∷ "x" ∷ [])) db).1
    ≡ true
update_allowed_users-exact_example =
    update_allowed_users-exact env (some 8) 21 21 4 ("4" ∷ "x" ∷ []) db (λ n. refl) refl refl

abbrev body : CreateBody
body = record {
  label = "docs";
  expires_at = none;
  visibility = "protected";
  allowed_users = "3" ∷ [];
}

create_token-outcome_example :
    CreateOutcome env
      (some 7)
      (some 1)
      (some body)
      db
      (create_token env (some 7) (some 1) (some body) db).0
      (create_token env (some 7) (some 1) (some body) db).1
create_token-outcome_example = create_token-outcome env (some 7) (some 1) (some body) db

abbrev made_db : ContextDb
made_db = (create_token env (some 7) (some 1) (some body) empty_db).1

made-reached : ContextReach made_db
made-reached = by_create env (some 7) (some 1) (some body) empty_db (blank empty_db refl refl)

head-ContextReach_example : (head visit_env "zf_ctx_1" "Bearer 3" made_db).0 ≢ shown new_snapshot
head-ContextReach_example =
    head-ContextReach visit_env "zf_ctx_1" "Bearer 3" made_db new_snapshot made-reached
