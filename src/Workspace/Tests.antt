-- ===== src/Workspace/Tests.antt =====
-- One organization with an owner and an admin, and a user outside it.
use zagforge_mvp.Prelude.{
  ℕ, ◌≤◌, String, ◌≡◌, refl, true, false, none, some, [], ◌∷◌, arith, ==_iff, count_where,
}
use zagforge_mvp.Workspace.Model.{User, Organization, WorkDb}
use zagforge_mvp.Workspace.Queries.{of_user, joined, get_membership_row, count_owners_by_org}
use zagforge_mvp.Workspace.Handlers.{
  WorkEnv, OrgRequest, create_org, update_org, delete_org, invite_member, update_member_role,
  remove_member,
}
use zagforge_mvp.Workspace.Handlers.Creation.{create_org-takes_over}
use zagforge_mvp.Workspace.Owned.{Owned}
use zagforge_mvp.Workspace.Lifecycle.{at_start, after, changing_role, removing, WorkReach-Owned}
use zagforge_mvp.Workspace.Ranks.{stranger-unchanged}

abbrev user : ℕ → String → User
user id email = record { id = id; username = email; email = email; auth_user_id = email }

abbrev acme : Organization
acme = record { id = 7; slug = "acme"; name = "Acme"; created_at = 1; auth_org_id = "local_acme" }

abbrev db : WorkDb
db = record {
  users = user 1 "o@x.org" ∷ user 2 "a@x.org" ∷ user 3 "s@x.org" ∷ [];
  organizations = acme ∷ [];
  memberships = joined 5 100 1 7 "owner" none ∷ joined 6 101 2 7 "admin" (some 1) ∷ [];
  audit_log = [];
}

abbrev env : WorkEnv
env = record {
  fails = λ q. false;
  now = 50;
  new_org_id = 8;
  new_membership_id = 102;
  is_email = λ s. true;
}

abbrev org_request : OrgRequest
org_request = record { name = "Other"; slug = "acme" }

db-keyed : (user o : ℕ) → count_where (of_user user o) db.memberships ≤ 1
db-keyed u o = ground (arith, ==_iff 1 u, ==_iff 2 u)

db-Owned : Owned 7 db
unfolding count_owners_by_org
db-Owned = record { keyed = db-keyed; owned = omega arith }

-- the owner is asked to step down, by himself, and is then removed by the admin
WorkReach-Owned_example :
    Owned 7
      (remove_member env 2
        (some 7)
        (some 1)
        (update_member_role env 1 (some 7) (some 1) (some "member") db).1).1
WorkReach-Owned_example =
    WorkReach-Owned
      (after (after at_start (changing_role env 1 (some 7) (some 1) (some "member") db)) (
        removing env 2 (some 7) (some 1)
          (update_member_role env 1 (some 7) (some 1) (some "member") db).1))
      db-Owned

no_row : get_membership_row 3 7 db ≡ none
unfolding get_membership_row
no_row = refl

stranger-unchanged_example :
    ((update_org env 3 (some 7) (some org_request) db).1 ≡ db)
    × ((delete_org env 3 (some 7) db).1 ≡ db)
    × ((invite_member env 3 (some 7) none db).1 ≡ db)
    × ((update_member_role env 3 (some 7) (some 3) (some "owner") db).1 ≡ db)
    × ((remove_member env 3 (some 7) (some 3) db).1 ≡ db)
stranger-unchanged_example =
    stranger-unchanged env 3 7 db no_row (some 3) (some org_request) none (some "owner")

admin_row : get_membership_row 2 7 db ≡ some (joined 6 101 2 7 "admin" (some 1))
unfolding get_membership_row
admin_row = refl

create_org-takes_over_example :
    get_membership_row 3 7 (create_org env 3 (some org_request) db).1
    ≡ some (joined 50 102 3 7 "owner" none)
create_org-takes_over_example =
    create_org-takes_over env 3 org_request acme db refl refl refl refl refl refl
