-- ===== src/Orgs/Access.antt =====
-- What the handlers of organizations share: the replies, the environment of a call, the audit entry
-- of services/auth/internal/service/audit/audit.go and the checks of handler/helpers.go and of
-- handler/org/org.go.
pub mod Rules
use zagforge_mvp.Prelude.{
  ℕ, String, Bool, true, false, ◌&&◌, ◌||◌, not, Option, none, some, str_eq, if◌then◌else◌, leb,
}
use Prim.Native.String.{count}
use zagforge_mvp.Prelude.Flow.{Act, ◌>>=◌, ◌>>◌, pure, stop_if, stop_unless, get, require, modify}
use zagforge_mvp.Orgs.Model.{
  Organization, OrgMembership, Invite, AuditLog, OrgDb, org_owner, org_admin, Query, Faults,
  get_membership, create_audit_log as insert_log,
}
use zagforge_mvp.Orgs.Queries.{get_org_membership, create_audit_log}

pub data Err : Type 0 where
  internal forbidden invalid_user_id invalid_org_id invalid_body validation : Err
  org_not_found not_owner cannot_remove_owner member_not_found : Err
  invalid_invite_id invalid_token max_members_reached : Err

pub data Body : Type 0 where
  error : Err → Body
  done : String → Body
  organization : Organization → Body
  invitation : Invite → String → Body

pub record Reply : Type 0 where
  pub code : ℕ
  pub body : Body

abbrev pub refuse : ℕ → Err → Reply
refuse code e = record { code = code; body = error e }

abbrev pub ok : String → Reply
ok s = record { code = 200; body = done s }

-- One call's environment: the failing statements, the clock, the fresh ids, the random token, and
-- the code that is not the repository's: the UUID scanner, the validator's email and uuid rules and
-- SHA-256.
pub record OrgEnv : Type 0 where
  pub fails : Faults
  pub now : ℕ
  pub new_id : ℕ
  pub new_membership_id : ℕ
  pub random_token : String
  pub scan_uuid : String → Option ℕ
  pub is_uuid : String → Bool
  pub is_email : String → Bool
  pub hash_token : String → String

-- the validator's `min` and `max` on a text count its runes
abbrev pub between : ℕ → ℕ → String → Bool
between lo hi s = leb lo (count s) && leb (count s) hi

abbrev pub given : String → Bool
given s = not (str_eq s "")

-- `oneof=admin member`
abbrev pub assignable : String → Bool
assignable r = str_eq r "admin" || str_eq r "member"

-- slices.Contains(role.OrgAdminOrAbove, …)
abbrev pub admin_or_above : OrgMembership → Bool
admin_or_above m = str_eq m.role org_owner || str_eq m.role org_admin

abbrev pub is_owner : OrgMembership → Bool
is_owner m = str_eq m.role org_owner

-- audit.Service.Log: its error is dropped
abbrev pub or_same : OrgDb → Option OrgDb → OrgDb
or_same db none = db
or_same db (some db') = db'

unfoldable pub logged : Faults → AuditLog → OrgDb → OrgDb
logged fails a db = if fails insert_log then db else or_same db (create_audit_log a db)

module _ (fails : Faults) (org user : ℕ) where
  -- RequireOrgAdminOrOwner
  unfoldable pub require_org_admin_or_owner : Act OrgDb Reply OrgMembership
  require_org_admin_or_owner = do
    stop_if (fails get_membership) (refuse 403 forbidden)
    db ← get
    m ← require (get_org_membership org user db) (refuse 403 forbidden)
    stop_unless (admin_or_above m) (refuse 403 forbidden)
    pure m

  -- requireOwner
  unfoldable pub require_owner : Act OrgDb Reply OrgMembership
  require_owner = do
    stop_if (fails get_membership) (refuse 403 forbidden)
    db ← get
    m ← require (get_org_membership org user db) (refuse 403 forbidden)
    stop_unless (is_owner m) (refuse 403 not_owner)
    pure m
