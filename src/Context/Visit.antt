-- ===== src/Context/Visit.antt =====
-- HEAD and GET /v1/context/{token}: Head, Get, checkVisibility and extractClaims of
-- api/internal/handler/contexturl/context.go. GET goes as far as the snapshot whose files it streams.
pub mod Rights
pub mod Shown
use zagforge_mvp.Prelude.{
  ℕ, String, Bool, true, false, ◌&&◌, ◌||◌, not, Option, none, some, List, [], ◌∷◌, str_eq, ◌==◌,
  ltb, if◌then◌else◌,
}
use zagforge_mvp.Prelude.Flow.{Act, ◌>>=◌, ◌>>◌, pure, reply, require, stop_if, get, modify, run}
use zagforge_mvp.Prelude.Bytes.{cut_text}
use zagforge_mvp.Jobs.Model.{Snapshot}
use zagforge_mvp.Workspace.Model.{Membership}
use zagforge_mvp.Context.Model.{
  Visibility, public, private, protected, ContextToken, RepoRow, ContextDb, Query, Faults,
  get_token, get_snapshot, get_latest, get_repo, get_membership, is_allowed, touch,
}
use zagforge_mvp.Context.Queries.{
  is_some_id, get_context_token_by_hash, get_snapshot_by_id, get_latest_snapshot, get_repo_by_id,
  get_member, is_user_allowed_for_token, update_context_token_last_used,
}

pub data Access : Type 0 where
  granted auth_required forbidden : Access

-- a code of 400 or more, or the snapshot that the answer is about
pub data Visited : Type 0 where
  refused : ℕ → Visited
  shown : Snapshot → Visited

-- What one request takes from outside: the clock, SHA-256 in hexadecimal digits, the JWT library
-- with the key and the issuer of the service (the subject of a token that it accepts), pgtype's
-- UUID scanner, and the failing statements. `touched` tells whether the write of the last use,
-- which runs in the background, has come through.
pub record VisitEnv : Type 0 where
  pub now : ℕ
  pub sha256 : String → String
  pub verify : String → Option String
  pub scan_uuid : String → Option ℕ
  pub fails : Faults
  pub touched : Bool

abbrev pub found : Option Membership → Bool
found none = false
found (some m) = true

-- `Valid && Before(now)`
abbrev pub expired : ℕ → Option ℕ → Bool
expired now none = false
expired now (some t) = ltb t now

module _ (env : VisitEnv) where
  open env use {now, sha256, verify, scan_uuid, fails, touched}

  abbrev verified : Option String → Option String
  verified none = none
  verified (some raw) = if str_eq raw "" then none else verify raw

  -- the subject of the claims
  unfoldable pub extract_claims : String → Option String
  extract_claims authorization = verified (cut_text "Bearer " authorization)

  -- a membership row, unless the statement fails
  is_member : ℕ → Option ℕ → ContextDb → Bool
  is_member user none db = false
  is_member user (some org) db = not (fails get_membership) && found (get_member user org db)

  -- the switch over the visibility, for a user
  visible_to : Visibility → ContextToken → ℕ → ContextDb → Bool
  visible_to public t user db = true
  visible_to private t user db = is_some_id user t.user_id || is_member user t.org_id db
  visible_to protected t user db = not (fails is_allowed) && is_user_allowed_for_token t.id user db

  for_user : ContextToken → Option ℕ → ContextDb → Access
  for_user t none db = forbidden
  for_user t (some user) db = if visible_to t.visibility t user db then granted else forbidden

  for_claims : ContextToken → Option String → ContextDb → Access
  for_claims t none db = auth_required
  for_claims t (some subject) db = for_user t (scan_uuid subject) db

  abbrev pub is_public : Visibility → Bool
  is_public public = true
  is_public _ = false

  -- checkVisibility
  pub check_visibility : String → ContextToken → ContextDb → Access
  check_visibility authorization t db =
      if is_public t.visibility then granted else for_claims t (extract_claims authorization) db

  -- the answers to checkVisibility
  let_in : Access → Act ContextDb Visited (Unit {0})
  let_in granted = pure tt
  let_in auth_required = reply (refused 401)
  let_in forbidden = reply (refused 403)

  -- what Head and Get have in common
  admit : String → String → Act ContextDb Visited ContextToken
  admit raw authorization = do
    stop_if (fails get_token) (refused 404)
    db ← get
    t ← require (get_context_token_by_hash (sha256 raw) db) (refused 404)
    stop_if (expired now t.expires_at) (refused 410)
    let_in (check_visibility authorization t db)
    pure t

  head_steps : String → String → Act ContextDb Visited Visited
  head_steps raw authorization = do
    t ← admit raw authorization
    target ← require t.target_snapshot_id (refused 404)
    stop_if (fails get_snapshot) (refused 404)
    db ← get
    snap ← require (get_snapshot_by_id target db) (refused 404)
    pure (shown snap)

  pub head : String → String → ContextDb → Visited × ContextDb
  head raw authorization = run (head_steps raw authorization)

  resolve : ContextToken → Option ℕ → Act ContextDb Visited Snapshot
  resolve t (some target) = do
    stop_if (fails get_snapshot) (refused 404)
    db ← get
    require (get_snapshot_by_id target db) (refused 404)
  resolve t none = do
    stop_if (fails get_repo) (refused 500)
    db ← get
    repo ← require (get_repo_by_id t.repo_id db) (refused 500)
    stop_if (fails get_latest) (refused 404)
    require (get_latest_snapshot t.repo_id repo.default_branch db) (refused 404)

  -- the background write
  unfoldable pub record_use : ContextToken → ContextDb → ContextDb
  record_use t db =
      if touched && not (fails touch) then update_context_token_last_used now t.id db else db

  get_steps : String → String → Act ContextDb Visited Visited
  get_steps raw authorization = do
    t ← admit raw authorization
    modify (record_use t)
    snap ← resolve t t.target_snapshot_id
    stop_if (ltb snap.snapshot_version 2) (refused 422)
    pure (shown snap)

  pub get_context : String → String → ContextDb → Visited × ContextDb
  get_context raw authorization = run (get_steps raw authorization)
