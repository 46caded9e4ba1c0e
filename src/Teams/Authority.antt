-- ===== src/Teams/Authority.antt =====
-- Who may change teams.
use zagforge_mvp.Prelude.{
  ℕ, String, ◌≡◌, refl, Bool, false, Option, none, some, List, [], ◌∷◌, arith, find, delete_where,
  count_where,
}
use zagforge_mvp.Prelude.Flow.{◌>>=◌, run}
use zagforge_mvp.Orgs.Model.{get_membership}
use zagforge_mvp.Orgs.Access.{admin_or_above, ok, require_org_admin_or_owner}
use zagforge_mvp.Orgs.Access.Rules.{MemberWith, IsAdmin}
use zagforge_mvp.Orgs.Authority.{Lacks, refuted}
use zagforge_mvp.Teams.Model.{TeamDb, drop_team, TeamEnv, TeamReply, shared}
use zagforge_mvp.Teams.Queries.{has_team_id, in_team, get_team_by_id, delete_team_row}
use zagforge_mvp.Teams.{
  TeamRequest, AddMemberRequest, on_orgs, team_logged, create_team, update_team, delete_team_steps,
  delete_team, add_team_member, remove_team_member, change_team_role,
}
use zagforge_mvp.Teams.Outcomes.{
  TeamOutcome, refused, carried_out, create_team-outcome, update_team-outcome, delete_team-outcome,
  add_team_member-outcome, remove_team_member-outcome, change_team_role-outcome,
}

outsider_refused :
    (user org : ℕ) {Effect : ℕ → ℕ → TeamReply → TeamDb → Type 0} {db d : TeamDb} {r : TeamReply}
    → Lacks admin_or_above org user db.orgs
    → TeamOutcome (some user) (some org) Effect db r d
    → d ≡ db
outsider_refused user org l (refused r le) = refl
outsider_refused user org {db = db} l (carried_out o a r d is_a is_o (m, found, rank) e) =
    absurd (refuted admin_or_above org user db.orgs l is_a is_o found rank)

-- A user who is neither owner nor admin of the organization in the URL changes nothing by asking to
-- create, update or delete a team, or to add, remove or change a member of a team.
pub team_outsider-unchanged :
    (env : TeamEnv) (user org : ℕ) (db : TeamDb)
    → Lacks admin_or_above org user db.orgs
    → ((body : Option TeamRequest) → (create_team env (some user) (some org) body db).1 ≡ db)
      × ((team : Option ℕ) (body : Option TeamRequest)
          → (update_team env (some user) (some org) team body db).1 ≡ db)
      × ((team : Option ℕ) → (delete_team env (some user) (some org) team db).1 ≡ db)
      × ((team : Option ℕ) (body : Option AddMemberRequest)
          → (add_team_member env (some user) (some org) team body db).1 ≡ db)
      × ((team target : Option ℕ)
          → (remove_team_member env (some user) (some org) team target db).1 ≡ db)
      × ((team target : Option ℕ) (body : Option String)
          → (change_team_role env (some user) (some org) team target body db).1 ≡ db)
team_outsider-unchanged env user org db l = (
  λ body. outsider_refused user org l (create_team-outcome env db _ _ body),
  λ team body. outsider_refused user org l (update_team-outcome env db _ _ team body),
  λ team. outsider_refused user org l (delete_team-outcome env db _ _ team),
  λ team body. outsider_refused user org l (add_team_member-outcome env db _ _ team body),
  λ team target. outsider_refused user org l (remove_team_member-outcome env db _ _ team target),
  λ team target body.
      outsider_refused user org l (change_team_role-outcome env db _ _ team target body),
)

find-delete_where {ℓ} :
    {A : Type ℓ} (p : A → Bool) (xs : List A) → find p (delete_where p xs) ≡ none
find-delete_where p [] = refl
find-delete_where p (x ∷ xs) = ground (arith, find-delete_where p xs)

count-delete_where {ℓ} :
    {A : Type ℓ} (p : A → Bool) (xs : List A) → count_where p (delete_where p xs) ≡ 0
count-delete_where p [] = refl
count-delete_where p (x ∷ xs) = ground (arith, count-delete_where p xs)

-- An admin or owner of one organization can delete every team: when the two statements do not fail,
-- the deletion with the URL of the own organization and the id of any team, of whatever
-- organization, is answered "deleted", and the team is gone with all its members.
pub delete_team-any_org :
    (env : TeamEnv) (user org team : ℕ) (db : TeamDb)
    → env.org_env.fails get_membership ≡ false
    → env.team_fails drop_team ≡ false
    → MemberWith IsAdmin org user db.orgs
    → ((delete_team env (some user) (some org) (some team) db).0 ≡ shared (ok "deleted"))
      × (get_team_by_id team (delete_team env (some user) (some org) (some team) db).1 ≡ none)
      × (count_where
            (in_team team)
            (delete_team env (some user) (some org) (some team) db).1.team_memberships
          ≡ 0)
unfolding delete_team delete_team_steps on_orgs require_org_admin_or_owner ◌>>=◌ run get_team_by_id
    delete_team_row team_logged
delete_team-any_org env user org team db reads drops (m, found, rank) =
    rw (reads, found, rank, drops)
      (
        refl,
        find-delete_where (has_team_id team) db.teams,
        count-delete_where (in_team team) db.team_memberships,
      )
