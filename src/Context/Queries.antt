-- ===== src/Context/Queries.antt =====
-- The SQL statements of services/shared/go/store/context_tokens.sql.go and
-- context_token_allowed_users.sql.go, and those of snapshots.sql.go, repositories.sql.go and
-- memberships.sql.go that the context handlers run, with the constraints of the schema.
pub mod Latest
use zagforge_mvp.Prelude.{
  ℕ, String, Bool, true, false, ◌&&◌, ◌||◌, not, Option, none, some, List, [], ◌∷◌, ◌++◌, map,
  str_eq, ◌==◌, ltb, if◌then◌else◌, find, update_where, select_where, delete_where, count_where,
  any_where, sort_by,
}
use zagforge_mvp.Jobs.Model.{Snapshot}
use zagforge_mvp.Workspace.Model.{Membership}
use zagforge_mvp.Workspace.Queries.{of_user}
use zagforge_mvp.Context.Model.{Visibility, ContextToken, AllowedUser, RepoRow, ContextDb}

abbrev pub with_hash : String → ContextToken → Bool
with_hash hash t = str_eq t.token_hash hash

abbrev pub token_with_id : ℕ → ContextToken → Bool
token_with_id id t = t.id == id

-- `column = $1`, false when the column is null
abbrev pub is_some_id : ℕ → Option ℕ → Bool
is_some_id id none = false
is_some_id id (some k) = k == id

-- `id = $1 AND org_id = $2`
abbrev pub token_of_org : ℕ → Option ℕ → ContextToken → Bool
token_of_org id none t = false
token_of_org id (some org) t = t.id == id && is_some_id org t.org_id

abbrev pub grant_of : ℕ → ℕ → AllowedUser → Bool
grant_of token user a = a.token_id == token && a.user_id == user

abbrev pub grant_on : ℕ → AllowedUser → Bool
grant_on token a = a.token_id == token

-- getContextTokenByHash
unfoldable pub get_context_token_by_hash : String → ContextDb → Option ContextToken
get_context_token_by_hash hash db = find (with_hash hash) db.tokens

-- getSnapshotByID
unfoldable pub get_snapshot_by_id : ℕ → ContextDb → Option Snapshot
get_snapshot_by_id id db = find (λ s. s.id == id) db.snapshots

-- `ORDER BY created_at DESC LIMIT 1`
abbrev pub newer : Snapshot → Option Snapshot → Snapshot
newer s none = s
newer s (some t) = if ltb s.created_at t.created_at then t else s

abbrev pub newest : List Snapshot → Option Snapshot
newest [] = none
newest (s ∷ rest) = some (newer s (newest rest))

abbrev pub on_branch : ℕ → String → Snapshot → Bool
on_branch repo branch s = s.repo_id == repo && str_eq s.branch branch

-- getLatestSnapshot
unfoldable pub get_latest_snapshot : ℕ → String → ContextDb → Option Snapshot
get_latest_snapshot repo branch db = newest (select_where (on_branch repo branch) db.snapshots)

-- getRepoByID
unfoldable pub get_repo_by_id : ℕ → ContextDb → Option RepoRow
get_repo_by_id id db = find (λ r. r.id == id) db.repositories

-- getMembership
unfoldable pub get_member : ℕ → ℕ → ContextDb → Option Membership
get_member user org db = find (of_user user org) db.memberships

-- isUserAllowedForToken
unfoldable pub is_user_allowed_for_token : ℕ → ℕ → ContextDb → Bool
is_user_allowed_for_token token user db = any_where (grant_of token user) db.allowed_users

-- updateContextTokenLastUsed
unfoldable pub update_context_token_last_used : ℕ → ℕ → ContextDb → ContextDb
update_context_token_last_used now id db = record db {
  tokens = update_where (token_with_id id) (λ t. record t { last_used_at = some now }) db.tokens;
}

-- the check that a token has one owner: a user or an organization
abbrev pub one_owner : ContextToken → Bool
one_owner t = one_of t.user_id t.org_id
  where
    one_of : Option ℕ → Option ℕ → Bool
    one_of (some u) none = true
    one_of none (some o) = true
    one_of _ _ = false

-- insertContextToken: `none` when the repository is gone, the hash is taken or the owner is not one
unfoldable pub insert_context_token : ContextToken → ContextDb → Option ContextDb
insert_context_token t db =
    if any_where (λ r. r.id == t.repo_id) db.repositories
      && not (any_where (with_hash t.token_hash) db.tokens)
      && one_owner t
    then some (record db { tokens = db.tokens ++ t ∷ [] })
    else none

-- insertContextTokenAllowedUser, ON CONFLICT DO NOTHING: `none` when the token or the user is gone
unfoldable pub insert_context_token_allowed_user : ℕ → ℕ → ℕ → ContextDb → Option ContextDb
insert_context_token_allowed_user now token user db =
    if any_where (token_with_id token) db.tokens && any_where (λ u. u == user) db.users
    then some (
        if any_where (grant_of token user) db.allowed_users then db else record db {
          allowed_users =
              db.allowed_users
              ++ record { token_id = token; user_id = user; created_at = now } ∷ [];
        })
    else none

-- replaceContextTokenAllowedUsers
unfoldable pub replace_context_token_allowed_users : ℕ → ContextDb → ContextDb
replace_context_token_allowed_users token db = record db {
  allowed_users = delete_where (grant_on token) db.allowed_users;
}

-- deleteContextTokenForOrg, and the cascade to the allowed users
unfoldable pub delete_context_token_for_org : ℕ → Option ℕ → ContextDb → ContextDb
delete_context_token_for_org id org db =
    if any_where (token_of_org id org) db.tokens
    then record db {
      tokens = delete_where (token_of_org id org) db.tokens;
      allowed_users = delete_where (grant_on id) db.allowed_users;
    }
    else db
