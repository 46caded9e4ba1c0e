-- ===== src/Orgs/Settings.antt =====
-- Handler.Create, Update and Delete of services/auth/internal/handler/org/org.go. `claims`, `org`
-- and `body` are what UserIDFromContext, ParseOrgID and DecodeJSON give, `none` for their errors.
pub mod Outcomes
pub mod Effects
mod Tests
use zagforge_mvp.Prelude.{
  ℕ, String, Bool, ◌&&◌, ◌||◌, not, Option, none, some, str_eq, if◌then◌else◌, ◌∷◌, find,
}
use zagforge_mvp.Prelude.Flow.{
  Act, ◌>>=◌, ◌>>◌, pure, stop_if, stop_unless, get, require, modify, run,
}
use zagforge_mvp.Orgs.Model.{
  Organization, AuditLog, OrgDb, org_owner, create_organization as insert_org,
  create_membership as insert_membership, update_organization as update_org,
  delete_organization as delete_org,
}
use zagforge_mvp.Orgs.Queries.{
  get_organization_by_id, new_organization, create_organization, create_org_membership,
  update_organization, delete_organization,
}
use zagforge_mvp.Orgs.Access.{
  internal, invalid_user_id, invalid_org_id, invalid_body, validation, organization, Reply, refuse,
  ok, OrgEnv, between, given, logged, require_org_admin_or_owner, require_owner,
}

pub record CreateOrgRequest : Type 0 where
  pub slug : String
  pub name : String

pub record UpdateOrgRequest : Type 0 where
  pub name : String
  pub logo_url : String
  pub billing_email : String

abbrev pub create_org_valid : CreateOrgRequest → Bool
create_org_valid r = given r.slug && between 2 50 r.slug && given r.name && between 1 100 r.name

abbrev pub update_org_valid : OrgEnv → UpdateOrgRequest → Bool
update_org_valid env r =
    given r.name
    && between 1 100 r.name
    && between 0 500 r.logo_url
    && (str_eq r.billing_email "" || env.is_email r.billing_email && between 0 255 r.billing_email)

-- pgtype.Text{String: s, Valid: s != ""}
abbrev pub text_or_null : String → Option String
text_or_null s = if str_eq s "" then none else some s

-- the audit entry of the three handlers
abbrev pub entry : ℕ → ℕ → String → AuditLog
entry org actor action = record {
  org_id = some org;
  actor_id = actor;
  action = action;
  target_type = "";
  target_id = none;
  metadata = "{}";
}

module _ (env : OrgEnv) where
  open env use {fails, now, new_id, new_membership_id}

  -- two statements, each committed by itself
  create_steps : Option ℕ → Option CreateOrgRequest → Act OrgDb Reply Reply
  create_steps claims body = do
    user ← require claims (refuse 401 invalid_user_id)
    req ← require body (refuse 400 invalid_body)
    stop_unless (create_org_valid req) (refuse 400 validation)
    stop_if (fails insert_org) (refuse 500 internal)
    db ← get
    db' ← require (create_organization now new_id req.slug req.name db) (refuse 500 internal)
    modify (λ _. db')
    stop_if (fails insert_membership) (refuse 500 internal)
    db'' ←
        require (create_org_membership now new_membership_id new_id user org_owner db')
          (refuse 500 internal)
    modify (λ _. db'')
    modify (logged fails (entry new_id user "org.created"))
    pure
        (record { code = 201; body = organization (new_organization now new_id req.slug req.name) })

  pub create : Option ℕ → Option CreateOrgRequest → OrgDb → Reply × OrgDb
  create claims body = run (create_steps claims body)

  update_steps : Option ℕ → Option ℕ → Option UpdateOrgRequest → Act OrgDb Reply Reply
  update_steps claims org_param body = do
    user ← require claims (refuse 401 invalid_user_id)
    org ← require org_param (refuse 400 invalid_org_id)
    require_org_admin_or_owner fails org user
    req ← require body (refuse 400 invalid_body)
    stop_unless (update_org_valid env req) (refuse 400 validation)
    stop_if (fails update_org) (refuse 500 internal)
    modify (
        update_organization now org req.name (text_or_null req.logo_url)
          (text_or_null req.billing_email))
    db ← get
    row ← require (get_organization_by_id org db) (refuse 500 internal)
    modify (logged fails (entry org user "org.updated"))
    pure (record { code = 200; body = organization row })

  pub update : Option ℕ → Option ℕ → Option UpdateOrgRequest → OrgDb → Reply × OrgDb
  update claims org_param body = run (update_steps claims org_param body)

  delete_steps : Option ℕ → Option ℕ → Act OrgDb Reply Reply
  delete_steps claims org_param = do
    user ← require claims (refuse 401 invalid_user_id)
    org ← require org_param (refuse 400 invalid_org_id)
    require_owner fails org user
    stop_if (fails delete_org) (refuse 500 internal)
    modify (delete_organization org)
    modify (logged fails (entry org user "org.deleted"))
    pure (ok "deleted")

  pub delete : Option ℕ → Option ℕ → OrgDb → Reply × OrgDb
  delete claims org_param = run (delete_steps claims org_param)
