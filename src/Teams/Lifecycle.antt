-- ===== src/Teams/Lifecycle.antt =====
-- Any sequence of calls of the team handlers, as a step relation.
use zagforge_mvp.Prelude.{ℕ, String, ◌≡◌, Option, [], arith}
use zagforge_mvp.Orgs.Model.{AuditLog}
use zagforge_mvp.Teams.Model.{TeamDb, TeamEnv, TeamReply}
use zagforge_mvp.Teams.{
  TeamRequest, AddMemberRequest, team_logged, create_team, update_team, delete_team,
  add_team_member, remove_team_member, change_team_role,
}
use zagforge_mvp.Teams.Outcomes.{
  TeamOutcome, refused, carried_out, Created, Updated, Deleted, Added, Removed, RoleChanged,
  create_team-outcome, update_team-outcome, delete_team-outcome, add_team_member-outcome,
  remove_team_member-outcome, change_team_role-outcome,
}
use zagforge_mvp.Teams.Tidy.{Tidy, create_team_row-Tidy, update_team_row-Tidy}
use zagforge_mvp.Teams.Tidy.Members.{
  delete_team_row-Tidy, create_team_membership-Tidy, delete_team_membership-Tidy,
  update_team_member_role-Tidy,
}

-- The databases that calls lead to from one without teams.
pub data TeamReach : TeamDb → Type 0 where
  blank : (db : TeamDb) → db.teams ≡ [] → db.team_memberships ≡ [] → TeamReach db
  by_create :
      (env : TeamEnv) (claims org : Option ℕ) (body : Option TeamRequest) (db : TeamDb)
      → TeamReach db
      → TeamReach (create_team env claims org body db).1
  by_update :
      (env : TeamEnv) (claims org team : Option ℕ) (body : Option TeamRequest) (db : TeamDb)
      → TeamReach db
      → TeamReach (update_team env claims org team body db).1
  by_delete :
      (env : TeamEnv) (claims org team : Option ℕ) (db : TeamDb)
      → TeamReach db
      → TeamReach (delete_team env claims org team db).1
  by_add :
      (env : TeamEnv) (claims org team : Option ℕ) (body : Option AddMemberRequest) (db : TeamDb)
      → TeamReach db
      → TeamReach (add_team_member env claims org team body db).1
  by_remove :
      (env : TeamEnv) (claims org team user : Option ℕ) (db : TeamDb)
      → TeamReach db
      → TeamReach (remove_team_member env claims org team user db).1
  by_role :
      (env : TeamEnv) (claims org team user : Option ℕ) (body : Option String) (db : TeamDb)
      → TeamReach db
      → TeamReach (change_team_role env claims org team user body db).1

-- the audit entry is written beside the teams
logged-Tidy : (env : TeamEnv) (a : AuditLog) (db : TeamDb) → Tidy db → Tidy (team_logged env a db)
unfolding team_logged
logged-Tidy env a db v = v

-- an outcome is tidy when what it carries out is
outcome-Tidy :
    (claims org : Option ℕ) (Effect : ℕ → ℕ → TeamReply → TeamDb → Type 0) (db : TeamDb)
    → Tidy db
    → ((o a : ℕ) (r : TeamReply) (d : TeamDb) → Effect o a r d → Tidy d)
    → {r : TeamReply} {d : TeamDb} → TeamOutcome claims org Effect db r d
    → Tidy d
outcome-Tidy claims org Effect db v k (refused r le) = v
outcome-Tidy claims org Effect db v k (carried_out o a r d is_a is_o rank e) = k o a r d e

-- Whatever calls of the team handlers come in, by whomever and whichever statements fail, from a
-- database without teams: an id and a slug of an organization name one team at most, a user is in a
-- team at most once and as lead or member, and every team that has members is there.
pub TeamReach-Tidy : (db : TeamDb) → TeamReach db → Tidy db
TeamReach-Tidy _ (blank db t m) =
    rw (t, m)
      (record {
        one_team = λ id. omega arith;
        one_slug = λ o s. omega arith;
        one_member = λ t u. omega arith;
        placed = tt;
        ranked = tt;
      })
TeamReach-Tidy _ (by_create env claims org body db r) =
    let v = TeamReach-Tidy db r in
    outcome-Tidy claims org (Created env db body) db v
      (λ o a r d (req, mid, _, _, made, _, is).
        rw is (logged-Tidy env _ mid (create_team_row-Tidy _ _ _ _ _ _ db mid v made)))
      (create_team-outcome env db claims org body)
TeamReach-Tidy _ (by_update env claims org team body db r) =
    let v = TeamReach-Tidy db r in
    outcome-Tidy claims org (Updated env db team body) db v
      (λ o a r d (t, req, row, mid, _, _, _, made, _, is).
        rw is (logged-Tidy env _ mid (update_team_row-Tidy _ _ _ _ _ db mid row v made)))
      (update_team-outcome env db claims org team body)
TeamReach-Tidy _ (by_delete env claims org team db r) =
    let v = TeamReach-Tidy db r in
    outcome-Tidy claims org (Deleted env db team) db v
      (λ o a r d (t, _, _, is). rw is (logged-Tidy env _ _ (delete_team_row-Tidy t db v)))
      (delete_team-outcome env db claims org team)
TeamReach-Tidy _ (by_add env claims org team body db r) =
    let v = TeamReach-Tidy db r in
    outcome-Tidy claims org (Added env db team body) db v
      (λ o a r d (t, req, user, mid, _, _, valid, _, made, _, is). rw is (
        logged-Tidy env _ mid
          (create_team_membership-Tidy _ _ t user req.role db mid v (ground arith) made)))
      (add_team_member-outcome env db claims org team body)
TeamReach-Tidy _ (by_remove env claims org team user db r) =
    let v = TeamReach-Tidy db r in
    outcome-Tidy claims org (Removed env db team user) db v
      (λ o a r d (t, u, _, _, _, is).
        rw is (logged-Tidy env _ _ (delete_team_membership-Tidy t u db v)))
      (remove_team_member-outcome env db claims org team user)
TeamReach-Tidy _ (by_role env claims org team user body db r) =
    let v = TeamReach-Tidy db r in
    outcome-Tidy claims org (RoleChanged env db team user body) db v
      (λ o a r d (t, u, role, _, _, _, valid, _, is).
        rw is (update_team_member_role-Tidy t u role db v (ground arith)))
      (change_team_role-outcome env db claims org team user body)
