-- ===== src/Orgs/Invites.antt =====
-- Handler.Create, Revoke and Accept of services/auth/internal/handler/invite/invite.go.
pub mod Outcomes
pub mod Membership
pub mod Tokens
mod Tests
use zagforge_mvp.Prelude.{ℕ, ◌+◌, ◌*◌, String, Bool, ◌&&◌, Option, none, some, int32, leℤ}
use zagforge_mvp.Prelude.Flow.{
  Act, ◌>>=◌, ◌>>◌, pure, stop_if, stop_unless, get, require, modify, run,
}
use zagforge_mvp.Orgs.Model.{
  Organization, Invite, AuditLog, OrgDb, get_organization, count_members, generate_token,
  create_invite as insert_invite, get_invite, accept_invite as accept_row,
  create_membership as insert_membership, revoke_invite as revoke_row,
}
use zagforge_mvp.Orgs.Queries.{
  get_organization_by_id, count_org_members, create_org_membership, create_invite, new_invite,
  get_invite_by_token_hash, accept_invite, revoke_invite,
}
use zagforge_mvp.Orgs.Access.{
  internal, invalid_user_id, invalid_org_id, invalid_body, validation, invalid_invite_id,
  invalid_token, max_members_reached, invitation, Reply, refuse, ok, OrgEnv, given, assignable,
  between, logged, require_org_admin_or_owner,
}

pub record CreateInviteRequest : Type 0 where
  pub email : String
  pub role : String

abbrev pub create_invite_valid : OrgEnv → CreateInviteRequest → Bool
create_invite_valid env r =
    given r.email
    && env.is_email r.email
    && between 0 255 r.email
    && given r.role
    && assignable r.role

-- inviteTTL, seven days in microseconds
abbrev pub invite_ttl : ℕ
invite_ttl = 7 * 24 * 3600000000

abbrev pub on_org : ℕ → ℕ → String → AuditLog
on_org org actor action = record {
  org_id = some org;
  actor_id = actor;
  action = action;
  target_type = "";
  target_id = none;
  metadata = "{}";
}

module _ (env : OrgEnv) where
  open env use {fails, now, new_id, new_membership_id, random_token, hash_token}

  -- `int32(count) >= org.MaxMembers`
  pub check_limit : ℕ → Act OrgDb Reply Organization
  check_limit id = do
    stop_if (fails get_organization) (refuse 500 internal)
    db ← get
    org ← require (get_organization_by_id id db) (refuse 500 internal)
    stop_if (fails count_members) (refuse 500 internal)
    stop_if (leℤ org.max_members (int32 (count_org_members id db))) (refuse 403 max_members_reached)
    pure org

  pub create_steps : Option ℕ → Option ℕ → Option CreateInviteRequest → Act OrgDb Reply Reply
  create_steps claims org_param body = do
    actor ← require claims (refuse 401 invalid_user_id)
    org ← require org_param (refuse 400 invalid_org_id)
    require_org_admin_or_owner fails org actor
    req ← require body (refuse 400 invalid_body)
    stop_unless (create_invite_valid env req) (refuse 400 validation)
    check_limit org
    stop_if (fails generate_token) (refuse 500 internal)
    stop_if (fails insert_invite) (refuse 500 internal)
    db ← get
    let hash = hash_token random_token
    let row = new_invite now new_id org actor req.email req.role hash (now + invite_ttl)
    db' ←
        require (create_invite now new_id org actor req.email req.role hash (now + invite_ttl) db)
          (refuse 500 internal)
    modify (λ _. db')
    modify (logged fails (on_org org actor "invite.created"))
    pure (record { code = 201; body = invitation row random_token })

  pub create : Option ℕ → Option ℕ → Option CreateInviteRequest → OrgDb → Reply × OrgDb
  create claims org_param body = run (create_steps claims org_param body)

  pub revoke_steps : Option ℕ → Option ℕ → Option ℕ → Act OrgDb Reply Reply
  revoke_steps claims org_param invite_param = do
    actor ← require claims (refuse 401 invalid_user_id)
    org ← require org_param (refuse 400 invalid_org_id)
    require_org_admin_or_owner fails org actor
    id ← require invite_param (refuse 400 invalid_invite_id)
    stop_if (fails revoke_row) (refuse 500 internal)
    modify (revoke_invite id org)
    modify (logged fails (on_org org actor "invite.revoked"))
    pure (ok "revoked")

  pub revoke : Option ℕ → Option ℕ → Option ℕ → OrgDb → Reply × OrgDb
  revoke claims org_param invite_param = run (revoke_steps claims org_param invite_param)

  -- the invite is consumed, then the membership is created: each statement is committed by itself
  pub join : ℕ → Invite → Act OrgDb Reply Reply
  join user inv = do
    stop_if (fails accept_row) (refuse 500 internal)
    db ← get
    db' ← require (accept_invite now inv.id db) (refuse 500 internal)
    modify (λ _. db')
    stop_if (fails insert_membership) (refuse 500 internal)
    db'' ←
        require (create_org_membership now new_membership_id inv.org_id user inv.role db')
          (refuse 500 internal)
    modify (λ _. db'')
    modify (logged fails (on_org inv.org_id user "invite.accepted"))
    pure (ok "accepted")

  pub accept_steps : Option ℕ → Option String → Act OrgDb Reply Reply
  accept_steps claims body = do
    user ← require claims (refuse 401 invalid_user_id)
    token ← require body (refuse 400 invalid_body)
    stop_unless (given token) (refuse 400 validation)
    stop_if (fails get_invite) (refuse 400 invalid_token)
    db ← get
    inv ← require (get_invite_by_token_hash now (hash_token token) db) (refuse 400 invalid_token)
    check_limit inv.org_id
    join user inv

  pub accept : Option ℕ → Option String → OrgDb → Reply × OrgDb
  accept claims body = run (accept_steps claims body)
