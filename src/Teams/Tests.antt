-- ===== src/Teams/Tests.antt =====
-- The team handlers on a small organization and a team of another one.
use zagforge_mvp.Prelude.{ℕ, String, ◌≡◌, refl, false, Option, none, some, [], ◌∷◌, count_where}
use zagforge_mvp.Prelude.Flow.{◌>>=◌, run}
use zagforge_mvp.Orgs.Queries.{get_org_membership, create_audit_log}
use zagforge_mvp.Orgs.Access.{
  admin_or_above, internal, refuse, ok, require_org_admin_or_owner, logged,
}
use zagforge_mvp.Orgs.Authority.{Lacks, Lacks-of_row}
use zagforge_mvp.Orgs.Fixtures.{env, db}
use zagforge_mvp.Teams.Model.{TeamDb, TeamEnv, shared, team_not_found}
use zagforge_mvp.Teams.Queries.{made_team, made_member, in_team, get_team_by_id, create_team_row}
use zagforge_mvp.Teams.{
  TeamRequest, AddMemberRequest, on_orgs, team_logged, create_team_steps, create_team,
  get_team_steps, get_team, update_team, delete_team, add_team_member, remove_team_member,
  change_team_role,
}
use zagforge_mvp.Teams.Authority.{team_outsider-unchanged, delete_team-any_org}
use zagforge_mvp.Teams.Tidy.{Tidy}
use zagforge_mvp.Teams.Lifecycle.{blank, by_create, by_add, TeamReach-Tidy}

abbrev team_env : TeamEnv
team_env = record { org_env = env; team_fails = λ q. false; uuid_text = λ n. "t" }

-- user 11 is an admin of organization 1; team 7 belongs to organization 9
abbrev team_db : TeamDb
team_db = record {
  orgs = db;
  teams = made_team 1 7 9 "infra" "Infra" none ∷ [];
  team_memberships = made_member 1 70 7 30 "lead" ∷ [];
}

delete_team-any_org_example :
    ((delete_team team_env (some 11) (some 1) (some 7) team_db).0 ≡ shared (ok "deleted"))
    × (get_team_by_id 7 (delete_team team_env (some 11) (some 1) (some 7) team_db).1 ≡ none)
    × (count_where
          (in_team 7)
          (delete_team team_env (some 11) (some 1) (some 7) team_db).1.team_memberships
        ≡ 0)
unfolding get_org_membership
delete_team-any_org_example = delete_team-any_org team_env 11 1 7 team_db refl refl (_, refl, refl)

outsider : Lacks admin_or_above 1 12 db
unfolding get_org_membership
outsider = Lacks-of_row admin_or_above 1 12 db refl refl

team_outsider-unchanged_example :
    ((body : Option TeamRequest)
      → (create_team team_env (some 12) (some 1) body team_db).1 ≡ team_db)
    × ((team : Option ℕ) (body : Option TeamRequest)
        → (update_team team_env (some 12) (some 1) team body team_db).1 ≡ team_db)
    × ((team : Option ℕ) → (delete_team team_env (some 12) (some 1) team team_db).1 ≡ team_db)
    × ((team : Option ℕ) (body : Option AddMemberRequest)
        → (add_team_member team_env (some 12) (some 1) team body team_db).1 ≡ team_db)
    × ((team target : Option ℕ)
        → (remove_team_member team_env (some 12) (some 1) team target team_db).1 ≡ team_db)
    × ((team target : Option ℕ) (body : Option String)
        → (change_team_role team_env (some 12) (some 1) team target body team_db).1 ≡ team_db)
team_outsider-unchanged_example = team_outsider-unchanged team_env 12 1 team_db outsider

abbrev empty_db : TeamDb
empty_db = record { orgs = db; teams = []; team_memberships = [] }

abbrev core : Option TeamRequest
core = some (record { slug = "core"; name = "Core"; description = "" })

abbrev joins : Option AddMemberRequest
joins = some (record { user_id = "u11"; role = "lead" })

-- the two calls of the example write
core_made :
    (create_team team_env (some 10) (some 1) core empty_db).1.teams
    ≡ made_team 1000 2 1 "core" "Core" none ∷ []
unfolding create_team create_team_steps on_orgs require_org_admin_or_owner get_org_membership
    create_team_row team_logged run ◌>>=◌
core_made = refl

taken :
    (create_team team_env
      (some 10)
      (some 1)
      core
      (create_team team_env (some 10) (some 1) core empty_db).1).0
    ≡ shared (refuse 500 internal)
unfolding create_team create_team_steps on_orgs require_org_admin_or_owner get_org_membership
    create_team_row team_logged logged create_audit_log run ◌>>=◌
taken = refl

TeamReach-Tidy_example :
    Tidy
      (add_team_member team_env
        (some 10)
        (some 1)
        (some 2)
        joins
        (create_team team_env (some 10) (some 1) core empty_db).1).1
TeamReach-Tidy_example =
    TeamReach-Tidy
      (add_team_member team_env (some 10) (some 1) (some 2) joins
        (create_team team_env (some 10) (some 1) core empty_db).1).1
      (by_add team_env (some 10) (some 1) (some 2) joins
        (create_team team_env (some 10) (some 1) core empty_db).1
        (by_create team_env (some 10) (some 1) core empty_db (blank empty_db refl refl)))

unknown_team : (get_team team_env (some 8) team_db).0 ≡ team_not_found
unfolding get_team get_team_steps get_team_by_id run ◌>>=◌
unknown_team = refl
