-- ===== src/Context/Manage.antt =====
-- Create, UpdateAllowedUsers and Delete of api/internal/handler/contexttokens/handler.go, behind the
-- middleware that resolves the organization of a request; it is `none` in a personal workspace.
pub mod Grants
pub mod Tidy
pub mod Kept
pub mod Made
use zagforge_mvp.Prelude.{
  length, ℕ, String, Bool, true, false, ◌&&◌, ◌||◌, not, Option, none, some, List, [], ◌∷◌, str_eq,
  ◌==◌, if◌then◌else◌,
}
use zagforge_mvp.Prelude.Flow.{
  Act, ◌>>=◌, ◌>>◌, pure, reply, require, stop_if, stop_unless, get, modify, run,
}
use zagforge_mvp.Context.Model.{
  Visibility, public, private, protected, ContextToken, RepoRow, ContextDb, Query, Faults, get_repo,
  insert_token, clear_allowed, delete_token,
}
use zagforge_mvp.Context.Queries.{
  get_repo_by_id, insert_context_token, insert_context_token_allowed_user,
  replace_context_token_allowed_users, delete_context_token_for_org,
}

pub record CreateBody : Type 0 where
  pub label : String
  pub expires_at : Option String
  pub visibility : String
  pub allowed_users : List String

-- a status code, and the raw token in the one answer that shows it
pub data Managed : Type 0 where
  status : ℕ → Managed
  created : String → Managed

-- What one request takes from outside: the clock, the fresh id, the random token (`none` when the
-- random source fails), SHA-256 in hexadecimal digits, time.Parse with RFC3339, pgtype's UUID
-- scanner, and the failing statements.
pub record ManageEnv : Type 0 where
  pub now : ℕ
  pub new_id : ℕ
  pub random_token : Option String
  pub sha256 : String → String
  pub parse_time : String → Option ℕ
  pub scan_uuid : String → Option ℕ
  pub fails : Faults
  pub insert_fails : ℕ → Bool

-- the struct tag `omitempty,oneof=public private protected` and the default
pub visibility_of : String → Option Visibility
visibility_of s =
    if str_eq s "" || str_eq s "public"
    then some public
    else if str_eq s "private"
    then some private
    else if str_eq s "protected"
    then some protected
    else none

-- equality of two nullable ids in Go
abbrev pub same_org : Option ℕ → Option ℕ → Bool
same_org none none = true
same_org (some a) (some b) = a == b
same_org _ _ = false

abbrev pub text_of : String → Option String
text_of s = if str_eq s "" then none else some s

-- an expiry that is given has to parse
pub expiry_of : (String → Option ℕ) → Option String → Option (Option ℕ)
expiry_of parse none = some none
expiry_of parse (some s) = parsed (parse s)
  where
    parsed : Option ℕ → Option (Option ℕ)
    parsed none = none
    parsed (some t) = some (some t)

module _ (env : ManageEnv) where
  open env use {now, new_id, random_token, sha256, parse_time, scan_uuid, fails, insert_fails}

  -- VerifyRepoOwnership of api/internal/handler/helpers.go; every error of it is answered alike
  pub verify_repo_ownership : ℕ → Option ℕ → Act ContextDb Managed (Unit {0})
  verify_repo_ownership repo_id org = do
    stop_if (fails get_repo) (status 404)
    db ← get
    repo ← require (get_repo_by_id repo_id db) (status 404)
    stop_unless (same_org repo.org_id org) (status 404)

  -- One pass of the loop over the user ids: an id that does not parse and an insert that fails are
  -- passed over. `bad` tells whether the statement fails.
  insert_parsed : Bool → ℕ → Option ℕ → ContextDb → ContextDb
  insert_parsed bad token none db = db
  insert_parsed bad token (some user) db =
      if bad then db else inserted_or (insert_context_token_allowed_user now token user db)
    where
      inserted_or : Option ContextDb → ContextDb
      inserted_or none = db
      inserted_or (some db') = db'

  pub insert_users : ℕ → List String → ContextDb → ContextDb
  insert_users token [] db = db
  insert_users token (s ∷ rest) db =
      insert_users token rest (insert_parsed (insert_fails (length rest)) token (scan_uuid s) db)

  abbrev pub new_token : ℕ → Option ℕ → CreateBody → Visibility → String → Option ℕ → ContextToken
  new_token repo_id org body visibility raw expires_at = record {
    id = new_id;
    repo_id = repo_id;
    org_id = org;
    target_snapshot_id = none;
    token_hash = sha256 raw;
    label = text_of body.label;
    last_used_at = none;
    expires_at = expires_at;
    created_at = now;
    user_id = none;
    visibility = visibility;
  }

  abbrev pub users_of : Visibility → CreateBody → List String
  users_of protected body = body.allowed_users
  users_of _ body = []

  create_steps : Option ℕ → Option ℕ → Option CreateBody → Act ContextDb Managed Managed
  create_steps org repo body = do
    repo_id ← require repo (status 400)
    verify_repo_ownership repo_id org
    b ← require body (status 400)
    visibility ← require (visibility_of b.visibility) (status 400)
    raw ← require random_token (status 500)
    expires_at ← require (expiry_of parse_time b.expires_at) (status 400)
    stop_if (fails insert_token) (status 500)
    db ← get
    db' ←
        require (insert_context_token (new_token repo_id org b visibility raw expires_at) db)
          (status 500)
    modify (λ _. insert_users new_id (users_of visibility b) db')
    pure (created raw)

  -- Create
  pub create_token : Option ℕ → Option ℕ → Option CreateBody → ContextDb → Managed × ContextDb
  create_token org repo body = run (create_steps org repo body)

  abbrev pub is_empty : List String → Bool
  is_empty [] = true
  is_empty (s ∷ rest) = false

  update_allowed_steps : Option ℕ → Option (List String) → Act ContextDb Managed Managed
  update_allowed_steps token body = do
    token_id ← require token (status 400)
    users ← require body (status 400)
    stop_if (is_empty users) (status 400)
    stop_if (fails clear_allowed) (status 500)
    modify (replace_context_token_allowed_users token_id)
    modify (insert_users token_id users)
    pure (status 204)

  -- UpdateAllowedUsers; the organization of the caller is read and not used
  pub update_allowed_users :
      Option ℕ → Option ℕ → Option (List String) → ContextDb → Managed × ContextDb
  update_allowed_users org token body = run (update_allowed_steps token body)

  delete_steps : Option ℕ → Option ℕ → Act ContextDb Managed Managed
  delete_steps org token = do
    token_id ← require token (status 400)
    stop_if (fails delete_token) (status 500)
    modify (delete_context_token_for_org token_id org)
    pure (status 204)

  -- Delete
  pub delete_token_of : Option ℕ → Option ℕ → ContextDb → Managed × ContextDb
  delete_token_of org token = run (delete_steps org token)
