-- ===== src/Teams/Queries.antt =====
-- The SQL statements of services/auth/internal/store/teams.sql.go, with the keys of the schema. An
-- UPDATE of a team also runs the trigger for `updated_at`.
use zagforge_mvp.Prelude.{
  ℕ, String, Bool, false, ◌&&◌, not, Option, none, some, [], ◌∷◌, ◌++◌, str_eq, ◌==◌, if◌then◌else◌,
  find, update_where, delete_where, any_where,
}
use zagforge_mvp.Orgs.Model.{Invite}
use zagforge_mvp.Orgs.Queries.{has_org_id}
use zagforge_mvp.Teams.Model.{Team, TeamMembership, TeamDb}

abbrev pub has_team_id : ℕ → Team → Bool
has_team_id id t = t.id == id

-- the key (org_id, slug)
abbrev pub slugged : ℕ → String → Team → Bool
slugged org slug t = t.org_id == org && str_eq t.slug slug

-- the key (team_id, user_id)
abbrev pub in_team_as : ℕ → ℕ → TeamMembership → Bool
in_team_as team user m = m.team_id == team && m.user_id == user

abbrev pub in_team : ℕ → TeamMembership → Bool
in_team team m = m.team_id == team

-- getTeamByID
unfoldable pub get_team_by_id : ℕ → TeamDb → Option Team
get_team_by_id id db = find (has_team_id id) db.teams

abbrev pub made_team : ℕ → ℕ → ℕ → String → String → Option String → Team
made_team now id org slug name description = record {
  id = id;
  org_id = org;
  slug = slug;
  name = name;
  description = description;
  created_at = now;
  updated_at = now;
}

-- createTeam: `none` when a key is taken or the organization is gone
unfoldable pub create_team_row :
    ℕ → ℕ → ℕ → String → String → Option String → TeamDb → Option TeamDb
create_team_row now id org slug name description db =
    if any_where (has_team_id id) db.teams
    then none
    else if any_where (slugged org slug) db.teams
    then none
    else if any_where (has_org_id org) db.orgs.organizations
    then some (record db { teams = db.teams ++ made_team now id org slug name description ∷ [] })
    else none

abbrev pub with_team_details : ℕ → String → String → Option String → Team → Team
with_team_details now name slug description t = record t {
  name = name;
  slug = slug;
  description = description;
  updated_at = now;
}

-- another team of the organization has the slug
abbrev pub slug_of_other : ℕ → ℕ → String → Team → Bool
slug_of_other id org slug t = slugged org slug t && not (has_team_id id t)

-- updateTeam and the row it returns: `none` when there is no such team or the slug is taken
unfoldable pub update_team_row :
    ℕ → ℕ → String → String → Option String → TeamDb → Option (Team × TeamDb)
update_team_row now id name slug description db = elim (get_team_by_id id db) [
  | none ↦ none
  | some t ↦
      if any_where (slug_of_other id t.org_id slug) db.teams
      then none
      else some (
        with_team_details now name slug description t,
        record db {
          teams =
              update_where (has_team_id id) (with_team_details now name slug description) db.teams;
        },
      )
]

abbrev pub of_team : ℕ → Invite → Bool
of_team id i = elim i.team_id [ none ↦ false | some t ↦ t == id ]

-- ON DELETE SET NULL
abbrev pub without_team : Invite → Invite
without_team i = record i { team_id = none }

-- deleteTeam, with what the foreign keys of team_memberships and invites do
unfoldable pub delete_team_row : ℕ → TeamDb → TeamDb
delete_team_row id db = record {
  orgs = record db.orgs { invites = update_where (of_team id) without_team db.orgs.invites };
  teams = delete_where (has_team_id id) db.teams;
  team_memberships = delete_where (in_team id) db.team_memberships;
}

abbrev pub made_member : ℕ → ℕ → ℕ → ℕ → String → TeamMembership
made_member now id team user role = record {
  id = id;
  team_id = team;
  user_id = user;
  role = role;
  created_at = now;
}

-- createTeamMembership: `none` when the user is in the team or the team is gone. The column's rule
-- on the role is the request's.
unfoldable pub create_team_membership : ℕ → ℕ → ℕ → ℕ → String → TeamDb → Option TeamDb
create_team_membership now id team user role db =
    if any_where (in_team_as team user) db.team_memberships
    then none
    else if any_where (has_team_id team) db.teams
    then some (record db {
      team_memberships = db.team_memberships ++ made_member now id team user role ∷ [];
    })
    else none

-- deleteTeamMembership
unfoldable pub delete_team_membership : ℕ → ℕ → TeamDb → TeamDb
delete_team_membership team user db = record db {
  team_memberships = delete_where (in_team_as team user) db.team_memberships;
}

abbrev pub with_team_role : String → TeamMembership → TeamMembership
with_team_role role m = record m { role = role }

-- updateTeamMemberRole
unfoldable pub update_team_member_role : ℕ → ℕ → String → TeamDb → TeamDb
update_team_member_role team user role db = record db {
  team_memberships = update_where (in_team_as team user) (with_team_role role) db.team_memberships;
}
