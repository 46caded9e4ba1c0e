-- ===== src/Orgs/Members.antt =====
-- Handler.UpdateMemberRole, RemoveMember and TransferOwnership of
-- services/auth/internal/handler/org/members.go. `target` is the URL parameter userID, scanned.
pub mod Outcomes
pub mod Kept
pub mod Ownership
mod Tests
use Prim.Native.String.{◌++◌}
use zagforge_mvp.Prelude.{ℕ, String, Bool, ◌&&◌, Option, none, some}
use zagforge_mvp.Prelude.Flow.{
  Act, ◌>>=◌, ◌>>◌, pure, stop_if, stop_unless, get, require, modify, run,
}
use zagforge_mvp.Orgs.Model.{
  OrgMembership, AuditLog, OrgDb, org_owner, org_admin, get_target, promote, demote, update_role,
  delete_membership,
}
use zagforge_mvp.Orgs.Queries.{get_org_membership, update_org_member_role, delete_org_membership}
use zagforge_mvp.Orgs.Access.{
  internal, invalid_user_id, invalid_org_id, invalid_body, validation, cannot_remove_owner,
  member_not_found, Reply, refuse, ok, OrgEnv, given, assignable, is_owner, logged,
  require_org_admin_or_owner, require_owner,
}

abbrev pub role_valid : String → Bool
role_valid role = given role && assignable role

abbrev pub transfer_valid : OrgEnv → String → Bool
transfer_valid env id = given id && env.is_uuid id

abbrev pub on_user : ℕ → ℕ → ℕ → String → String → AuditLog
on_user org actor target action metadata = record {
  org_id = some org;
  actor_id = actor;
  action = action;
  target_type = "user";
  target_id = some target;
  metadata = metadata;
}

-- fmt.Appendf(nil, `{"role":"%s"}`, role)
abbrev pub role_metadata : String → String
role_metadata role = "{\"role\":\"" ++ (role ++ "\"}")

module _ (env : OrgEnv) where
  open env use {fails, now, scan_uuid}

  -- GetOrgMembership of the target, answered 404 on any error, and the check on its role
  pub require_other : ℕ → ℕ → Act OrgDb Reply OrgMembership
  require_other org target = do
    stop_if (fails get_target) (refuse 404 member_not_found)
    db ← get
    m ← require (get_org_membership org target db) (refuse 404 member_not_found)
    stop_if (is_owner m) (refuse 403 cannot_remove_owner)
    pure m

  pub update_role_steps : Option ℕ → Option ℕ → Option ℕ → Option String → Act OrgDb Reply Reply
  update_role_steps claims org_param target_param body = do
    actor ← require claims (refuse 401 invalid_user_id)
    org ← require org_param (refuse 400 invalid_org_id)
    require_org_admin_or_owner fails org actor
    target ← require target_param (refuse 400 invalid_user_id)
    role ← require body (refuse 400 invalid_body)
    stop_unless (role_valid role) (refuse 400 validation)
    require_other org target
    stop_if (fails update_role) (refuse 500 internal)
    modify (update_org_member_role now org target role)
    modify (logged fails (on_user org actor target "org.member.role_changed" (role_metadata role)))
    pure (ok "updated")

  pub update_member_role : Option ℕ → Option ℕ → Option ℕ → Option String → OrgDb → Reply × OrgDb
  update_member_role claims org_param target_param body =
      run (update_role_steps claims org_param target_param body)

  pub remove_steps : Option ℕ → Option ℕ → Option ℕ → Act OrgDb Reply Reply
  remove_steps claims org_param target_param = do
    actor ← require claims (refuse 401 invalid_user_id)
    org ← require org_param (refuse 400 invalid_org_id)
    require_org_admin_or_owner fails org actor
    target ← require target_param (refuse 400 invalid_user_id)
    require_other org target
    stop_if (fails delete_membership) (refuse 500 internal)
    modify (delete_org_membership org target)
    modify (logged fails (on_user org actor target "org.member.removed" "{}"))
    pure (ok "removed")

  pub remove_member : Option ℕ → Option ℕ → Option ℕ → OrgDb → Reply × OrgDb
  remove_member claims org_param target_param = run (remove_steps claims org_param target_param)

  -- promotion of the new owner, then demotion of the actor: two statements, each committed by itself
  pub hand_over : ℕ → ℕ → ℕ → Act OrgDb Reply Reply
  hand_over org actor new_owner = do
    stop_if (fails promote) (refuse 500 internal)
    modify (update_org_member_role now org new_owner org_owner)
    stop_if (fails demote) (refuse 500 internal)
    modify (update_org_member_role now org actor org_admin)
    modify (logged fails (on_user org actor new_owner "org.owner.transferred" "{}"))
    pure (ok "transferred")

  pub transfer_steps : Option ℕ → Option ℕ → Option String → Act OrgDb Reply Reply
  transfer_steps claims org_param body = do
    actor ← require claims (refuse 401 invalid_user_id)
    org ← require org_param (refuse 400 invalid_org_id)
    require_owner fails org actor
    text ← require body (refuse 400 invalid_body)
    stop_unless (transfer_valid env text) (refuse 400 validation)
    new_owner ← require (scan_uuid text) (refuse 400 invalid_user_id)
    stop_if (fails get_target) (refuse 404 member_not_found)
    db ← get
    m ← require (get_org_membership org new_owner db) (refuse 404 member_not_found)
    hand_over org actor new_owner

  pub transfer_ownership : Option ℕ → Option ℕ → Option String → OrgDb → Reply × OrgDb
  transfer_ownership claims org_param body = run (transfer_steps claims org_param body)
