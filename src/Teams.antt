-- ===== src/Teams.antt =====
-- Create, Get, Update and Delete of services/auth/internal/handler/team/team.go and AddMember,
-- RemoveMember and UpdateMemberRole of members.go. `claims`, the URL parameters and `body` are what
-- UserIDFromContext, ParseUUIDParam and DecodeJSON give, `none` for their errors.
pub mod Model
pub mod Queries
mod Steps
pub mod Outcomes
pub mod Authority
pub mod Tidy
pub mod Lifecycle
mod Tests
use Prim.Native.String.{◌++◌}
use zagforge_mvp.Prelude.{ℕ, String, Bool, ◌&&◌, ◌||◌, Option, some, str_eq}
use zagforge_mvp.Prelude.Flow.{
  Flow, go, answer, Act, ◌>>=◌, ◌>>◌, pure, stop_if, stop_unless, get, require, modify, run,
}
use zagforge_mvp.Orgs.Model.{AuditLog, OrgDb}
use zagforge_mvp.Orgs.Access.{
  Err, internal, invalid_user_id, invalid_org_id, invalid_body, validation, done, Reply, refuse, ok,
  OrgEnv, between, given, logged, require_org_admin_or_owner,
}
use zagforge_mvp.Orgs.Settings.{text_or_null}
use zagforge_mvp.Teams.Model.{
  Team, TeamDb, insert_team, select_team, change_team, drop_team, insert_member, change_member,
  drop_member, TeamEnv, TeamReply, shared, invalid_team_id, team_not_found, team_shown,
}
use zagforge_mvp.Teams.Queries.{
  get_team_by_id, made_team, create_team_row, update_team_row, delete_team_row,
  create_team_membership, delete_team_membership, update_team_member_role,
}

-- createTeamRequest and updateTeamRequest
pub record TeamRequest : Type 0 where
  pub slug : String
  pub name : String
  pub description : String

pub record AddMemberRequest : Type 0 where
  pub user_id : String
  pub role : String

abbrev pub team_request_valid : TeamRequest → Bool
team_request_valid r =
    given r.slug
    && between 2 50 r.slug
    && given r.name
    && between 1 100 r.name
    && between 0 500 r.description

-- `oneof=lead member`
abbrev pub team_role : String → Bool
team_role r = str_eq r "lead" || str_eq r "member"

abbrev pub add_member_valid : OrgEnv → AddMemberRequest → Bool
add_member_valid env r =
    given r.user_id && env.is_uuid r.user_id && given r.role && team_role r.role

abbrev pub team_role_valid : String → Bool
team_role_valid r = given r && team_role r

abbrev pub team_log : ℕ → ℕ → String → String → ℕ → String → AuditLog
team_log org actor action target_type target metadata = record {
  org_id = some org;
  actor_id = actor;
  action = action;
  target_type = target_type;
  target_id = some target;
  metadata = metadata;
}

-- a step over the tables of organizations
module _ {A : Type 0} where
  abbrev pub lifted : TeamDb → Flow Reply A × OrgDb → Flow TeamReply A × TeamDb
  lifted db (go a, o) = (go a, record db { orgs = o })
  lifted db (answer r, o) = (answer (shared r), record db { orgs = o })

  unfoldable pub on_orgs : Act OrgDb Reply A → Act TeamDb TeamReply A
  on_orgs m db = lifted db (m db.orgs)

-- an error of the code that all handlers share
abbrev pub stop : ℕ → Err → TeamReply
stop code e = shared (refuse code e)

module _ (env : TeamEnv) where
  open env use {org_env, team_fails, uuid_text}
  open org_env use {fails, now, new_id, new_membership_id, scan_uuid}

  unfoldable pub team_logged : AuditLog → TeamDb → TeamDb
  team_logged a db = record db { orgs = logged fails a db.orgs }

  create_team_steps : Option ℕ → Option ℕ → Option TeamRequest → Act TeamDb TeamReply TeamReply
  create_team_steps claims org_param body = do
    user ← require claims (stop 401 invalid_user_id)
    org ← require org_param (stop 400 invalid_org_id)
    on_orgs (require_org_admin_or_owner fails org user)
    req ← require body (stop 400 invalid_body)
    stop_unless (team_request_valid req) (stop 400 validation)
    stop_if (team_fails insert_team) (stop 500 internal)
    db ← get
    made ←
        require (create_team_row now new_id org req.slug req.name (text_or_null req.description) db)
          (stop 500 internal)
    modify (λ _. made)
    modify (team_logged (team_log org user "team.created" "team" new_id "{}"))
    pure
        (team_shown 201 (made_team now new_id org req.slug req.name (text_or_null req.description)))

  pub create_team : Option ℕ → Option ℕ → Option TeamRequest → TeamDb → TeamReply × TeamDb
  create_team claims org_param body = run (create_team_steps claims org_param body)

  -- Get: the organization of the URL is not read
  get_team_steps : Option ℕ → Act TeamDb TeamReply TeamReply
  get_team_steps team_param = do
    team ← require team_param invalid_team_id
    stop_if (team_fails select_team) team_not_found
    db ← get
    t ← require (get_team_by_id team db) team_not_found
    pure (team_shown 200 t)

  pub get_team : Option ℕ → TeamDb → TeamReply × TeamDb
  get_team team_param = run (get_team_steps team_param)

  update_team_steps :
      Option ℕ → Option ℕ → Option ℕ → Option TeamRequest → Act TeamDb TeamReply TeamReply
  update_team_steps claims org_param team_param body = do
    user ← require claims (stop 401 invalid_user_id)
    org ← require org_param (stop 400 invalid_org_id)
    team ← require team_param invalid_team_id
    on_orgs (require_org_admin_or_owner fails org user)
    req ← require body (stop 400 invalid_body)
    stop_unless (team_request_valid req) (stop 400 validation)
    stop_if (team_fails change_team) (stop 500 internal)
    db ← get
    made ←
        require (update_team_row now team req.name req.slug (text_or_null req.description) db)
          (stop 500 internal)
    modify (λ _. made.1)
    modify (team_logged (team_log org user "team.updated" "team" team "{}"))
    pure (team_shown 200 made.0)

  pub update_team :
      Option ℕ → Option ℕ → Option ℕ → Option TeamRequest → TeamDb → TeamReply × TeamDb
  update_team claims org_param team_param body =
      run (update_team_steps claims org_param team_param body)

  delete_team_steps : Option ℕ → Option ℕ → Option ℕ → Act TeamDb TeamReply TeamReply
  delete_team_steps claims org_param team_param = do
    user ← require claims (stop 401 invalid_user_id)
    org ← require org_param (stop 400 invalid_org_id)
    team ← require team_param invalid_team_id
    on_orgs (require_org_admin_or_owner fails org user)
    stop_if (team_fails drop_team) (stop 500 internal)
    modify (delete_team_row team)
    modify (team_logged (team_log org user "team.deleted" "team" team "{}"))
    pure (shared (ok "deleted"))

  pub delete_team : Option ℕ → Option ℕ → Option ℕ → TeamDb → TeamReply × TeamDb
  delete_team claims org_param team_param = run (delete_team_steps claims org_param team_param)

  abbrev pub member_metadata : ℕ → String → String
  member_metadata team role =
      "{\"team_id\":\"" ++ uuid_text team ++ "\",\"role\":\"" ++ role ++ "\"}"

  add_team_member_steps :
      Option ℕ → Option ℕ → Option ℕ → Option AddMemberRequest → Act TeamDb TeamReply TeamReply
  add_team_member_steps claims org_param team_param body = do
    user ← require claims (stop 401 invalid_user_id)
    org ← require org_param (stop 400 invalid_org_id)
    team ← require team_param invalid_team_id
    on_orgs (require_org_admin_or_owner fails org user)
    req ← require body (stop 400 invalid_body)
    stop_unless (add_member_valid org_env req) (stop 400 validation)
    target ← require (scan_uuid req.user_id) (stop 400 invalid_user_id)
    stop_if (team_fails insert_member) (stop 500 internal)
    db ← get
    made ←
        require (create_team_membership now new_membership_id team target req.role db)
          (stop 500 internal)
    modify (λ _. made)
    modify (
        team_logged
          (team_log org user "team.member.added" "user" target (member_metadata team req.role)))
    pure (shared (record { code = 201; body = done "added" }))

  pub add_team_member :
      Option ℕ → Option ℕ → Option ℕ → Option AddMemberRequest → TeamDb → TeamReply × TeamDb
  add_team_member claims org_param team_param body =
      run (add_team_member_steps claims org_param team_param body)

  remove_team_member_steps :
      Option ℕ → Option ℕ → Option ℕ → Option ℕ → Act TeamDb TeamReply TeamReply
  remove_team_member_steps claims org_param team_param user_param = do
    user ← require claims (stop 401 invalid_user_id)
    org ← require org_param (stop 400 invalid_org_id)
    team ← require team_param invalid_team_id
    on_orgs (require_org_admin_or_owner fails org user)
    target ← require user_param (stop 400 invalid_user_id)
    stop_if (team_fails drop_member) (stop 500 internal)
    modify (delete_team_membership team target)
    modify (team_logged (team_log org user "team.member.removed" "user" target "{}"))
    pure (shared (ok "removed"))

  pub remove_team_member : Option ℕ → Option ℕ → Option ℕ → Option ℕ → TeamDb → TeamReply × TeamDb
  remove_team_member claims org_param team_param user_param =
      run (remove_team_member_steps claims org_param team_param user_param)

  -- no audit entry
  change_team_role_steps :
      Option ℕ → Option ℕ → Option ℕ → Option ℕ → Option String → Act TeamDb TeamReply TeamReply
  change_team_role_steps claims org_param team_param user_param body = do
    user ← require claims (stop 401 invalid_user_id)
    org ← require org_param (stop 400 invalid_org_id)
    team ← require team_param invalid_team_id
    on_orgs (require_org_admin_or_owner fails org user)
    target ← require user_param (stop 400 invalid_user_id)
    role ← require body (stop 400 invalid_body)
    stop_unless (team_role_valid role) (stop 400 validation)
    stop_if (team_fails change_member) (stop 500 internal)
    modify (update_team_member_role team target role)
    pure (shared (ok "updated"))

  pub change_team_role :
      Option ℕ → Option ℕ → Option ℕ → Option ℕ → Option String → TeamDb → TeamReply × TeamDb
  change_team_role claims org_param team_param user_param body =
      run (change_team_role_steps claims org_param team_param user_param body)
