-- ===== src/Workspace/Lifecycle.antt =====
-- Any sequence of whole calls on organizations, one after the other, that deletes others only, as a
-- step relation.
use zagforge_mvp.Prelude.{ℕ, String, ◌≡◌, ◌≢◌, ◌∙◌, ap, Option, some, arith}
use zagforge_mvp.Workspace.Model.{Organization, WorkDb}
use zagforge_mvp.Workspace.Queries.{
  upsert_organization, update_organization_row, insert_audit_log_row,
}
use zagforge_mvp.Workspace.Handlers.{
  WorkReply, WorkEnv, OrgRequest, InviteRequest, audit, create_org, update_org, delete_org,
  invite_member, update_member_role, remove_member,
}
use zagforge_mvp.Workspace.Handlers.Roles.{
  RoleOutcome, role_refused, role_changed, RemoveOutcome, remove_refused, removed,
  update_member_role-outcome, remove_member-outcome,
}
use zagforge_mvp.Workspace.Handlers.Changes.{
  CreateOutcome, create_refused, only_upserted, org_made, UpdateOutcome, update_refused,
  org_changed, DeleteOutcome, delete_refused, org_deleted, InviteOutcome, invite_refused, invited,
  create_org-outcome, update_org-outcome, delete_org-outcome, invite_member-outcome,
}
use zagforge_mvp.Workspace.Owned.{
  Owned, Owned-same, Owned-create_membership_row, Owned-update_membership_role,
  Owned-delete_membership_row, Owned-delete_organization_row,
}

pub data WorkStep (org : ℕ) : WorkDb → WorkDb → Type 0 where
  creating :
      (env : WorkEnv) (caller : ℕ) (body : Option OrgRequest) (db : WorkDb)
      → WorkStep org db (create_org env caller body db).1
  updating :
      (env : WorkEnv) (caller : ℕ) (org_param : Option ℕ) (body : Option OrgRequest) (db : WorkDb)
      → WorkStep org db (update_org env caller org_param body db).1
  deleting :
      (env : WorkEnv) (caller : ℕ) (org_param : Option ℕ) (db : WorkDb)
      → org_param ≢ some org
      → WorkStep org db (delete_org env caller org_param db).1
  inviting :
      (env : WorkEnv) (caller : ℕ) (org_param : Option ℕ) (body : Option InviteRequest)
      (db : WorkDb)
      → WorkStep org db (invite_member env caller org_param body db).1
  changing_role :
      (env : WorkEnv) (caller : ℕ) (org_param user_param : Option ℕ) (body : Option String)
      (db : WorkDb)
      → WorkStep org db (update_member_role env caller org_param user_param body db).1
  removing :
      (env : WorkEnv) (caller : ℕ) (org_param user_param : Option ℕ) (db : WorkDb)
      → WorkStep org db (remove_member env caller org_param user_param db).1

pub data WorkReach (org : ℕ) (db : WorkDb) : WorkDb → Type 0 where
  at_start : WorkReach org db db
  after : {mid last : WorkDb} → WorkReach org db mid → WorkStep org mid last → WorkReach org db last

pub audit-memberships :
    (env : WorkEnv) (caller : ℕ) (user : Option ℕ) (org : ℕ) (action : String) (target : ℕ)
    (db : WorkDb)
    → (audit env caller user org action target db).memberships ≡ db.memberships
unfolding audit insert_audit_log_row
audit-memberships env caller user org action target db = ground arith

upsert-memberships :
    (now id : ℕ) (auth_id slug name : String) (db : WorkDb) {o : Organization} {d : WorkDb}
    → upsert_organization now id auth_id slug name db ≡ some (o, d)
    → d.memberships ≡ db.memberships
unfolding upsert_organization
upsert-memberships now id auth_id slug name db made = ground arith

update-memberships :
    (org : ℕ) (name slug : String) (db : WorkDb) {d : WorkDb}
    → update_organization_row org name slug db ≡ some d
    → d.memberships ≡ db.memberships
unfolding update_organization_row
update-memberships org name slug db made = ground arith

module _ {org : ℕ} where
  Owned-audit :
      (env : WorkEnv) (caller : ℕ) (user : Option ℕ) (o : ℕ) (action : String) (target : ℕ)
      (db : WorkDb)
      → Owned org db
      → Owned org (audit env caller user o action target db)
  Owned-audit env caller user o action target db v =
      Owned-same v _ (audit-memberships env caller user o action target db)

  CreateOutcome-Owned :
      {env : WorkEnv} {caller : ℕ} {body : Option OrgRequest} {db d : WorkDb} {r : WorkReply}
      → Owned org db
      → CreateOutcome env caller body db r d
      → Owned org d
  CreateOutcome-Owned v (create_refused code e le) = v
  CreateOutcome-Owned v (only_upserted b o mid is_body made) =
      Owned-same v mid (upsert-memberships _ _ _ _ _ _ made)
  CreateOutcome-Owned v (org_made b o mid d is_body made joins) = Owned-audit _ _ _ _ _ _ d (
      Owned-create_membership_row (Owned-same v mid (upsert-memberships _ _ _ _ _ _ made)) _ _ _ _ _
        _ d joins)

  UpdateOutcome-Owned :
      {env : WorkEnv} {caller : ℕ} {org_param : Option ℕ} {db d : WorkDb} {r : WorkReply}
      → Owned org db
      → UpdateOutcome env caller org_param db r d
      → Owned org d
  UpdateOutcome-Owned v (update_refused code e le) = v
  UpdateOutcome-Owned v (org_changed o m b d is_org allowed made) =
      Owned-audit _ _ _ _ _ _ d (Owned-same v d (update-memberships _ _ _ _ made))

  DeleteOutcome-Owned :
      {env : WorkEnv} {caller : ℕ} {org_param : Option ℕ} {db d : WorkDb} {r : WorkReply}
      → Owned org db
      → org_param ≢ some org
      → DeleteOutcome env caller org_param db r d
      → Owned org d
  DeleteOutcome-Owned v other (delete_refused code e le) = v
  DeleteOutcome-Owned v other (org_deleted o m is_org allowed) =
      Owned-delete_organization_row v o (λ same. other (is_org ∙ ap some same))

  InviteOutcome-Owned :
      {env : WorkEnv} {caller : ℕ} {org_param : Option ℕ} {body : Option InviteRequest}
      {db d : WorkDb} {r : WorkReply}
      → Owned org db
      → InviteOutcome env caller org_param body db r d
      → Owned org d
  InviteOutcome-Owned v (invite_refused code e le) = v
  InviteOutcome-Owned v (invited o m b u d is allowed found made) =
      Owned-audit _ _ _ _ _ _ d (Owned-create_membership_row v _ _ _ _ _ _ d made)

  RoleOutcome-Owned :
      {env : WorkEnv} {caller : ℕ} {org_param user_param : Option ℕ} {body : Option String}
      {db d : WorkDb} {r : WorkReply}
      → Owned org db
      → RoleOutcome env caller org_param user_param body db r d
      → Owned org d
  RoleOutcome-Owned v (role_refused code e le) = v
  RoleOutcome-Owned v (role_changed o user role target is c) =
      Owned-audit _ _ _ _ _ _ _ (Owned-update_membership_role v user o role c.found c.not_last)

  RemoveOutcome-Owned :
      {env : WorkEnv} {caller : ℕ} {org_param user_param : Option ℕ} {db d : WorkDb} {r : WorkReply}
      → Owned org db
      → RemoveOutcome env caller org_param user_param db r d
      → Owned org d
  RemoveOutcome-Owned v (remove_refused code e le) = v
  RemoveOutcome-Owned v (removed o user is c) =
      Owned-audit _ _ _ _ _ _ _ (Owned-delete_membership_row v user o c.found c.not_last)

WorkStep-Owned : {org : ℕ} {db d : WorkDb} → WorkStep org db d → Owned org db → Owned org d
WorkStep-Owned (creating env caller body db) v =
    CreateOutcome-Owned v (create_org-outcome env caller db body)
WorkStep-Owned (updating env caller org_param body db) v =
    UpdateOutcome-Owned v (update_org-outcome env caller db org_param body)
WorkStep-Owned (deleting env caller org_param db other) v =
    DeleteOutcome-Owned v other (delete_org-outcome env caller db org_param)
WorkStep-Owned (inviting env caller org_param body db) v =
    InviteOutcome-Owned v (invite_member-outcome env caller db org_param body)
WorkStep-Owned (changing_role env caller org_param user_param body db) v =
    RoleOutcome-Owned v (update_member_role-outcome env caller db org_param user_param body)
WorkStep-Owned (removing env caller org_param user_param db) v =
    RemoveOutcome-Owned v (remove_member-outcome env caller db org_param user_param)

-- An organization that has an owner keeps one through any sequence of calls of the handlers in which
-- each call ends before the next one begins, by whomever they are made and whichever statements
-- fail, as long as no call asks for its deletion; the key of the memberships stays unique. Calls
-- that overlap are not covered: the count of the owners and the update after it are two statements
-- without a transaction.
pub WorkReach-Owned : {org : ℕ} {db d : WorkDb} → WorkReach org db d → Owned org db → Owned org d
WorkReach-Owned at_start v = v
WorkReach-Owned (after r s) v = WorkStep-Owned s (WorkReach-Owned r v)
