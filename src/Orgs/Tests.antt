-- ===== src/Orgs/Tests.antt =====
-- Users without rights on a small organization.
use zagforge_mvp.Prelude.{ℕ, String, ◌≡◌, refl, Option, none, some}
use zagforge_mvp.Orgs.Model.{org_admin, org_member}
use zagforge_mvp.Orgs.Queries.{new_membership, get_org_membership}
use zagforge_mvp.Orgs.Access.{admin_or_above, is_owner}
use zagforge_mvp.Orgs.Settings.{UpdateOrgRequest, update}
use zagforge_mvp.Orgs.Members.{update_member_role, remove_member}
use zagforge_mvp.Orgs.Invites.{CreateInviteRequest, create, revoke}
use zagforge_mvp.Orgs.Owners.{Keeps}
use zagforge_mvp.Orgs.Lifecycle.{at_start, after, inviting, removing, OrgReach-Keeps}
use zagforge_mvp.Orgs.Fixtures.{env, db, db-IsValid}
use zagforge_mvp.Orgs.Authority.{Lacks, Lacks-of_row, outsider-unchanged}

member_row : get_org_membership 1 12 db ≡ some (new_membership 3 103 1 12 org_member)
unfolding get_org_membership
member_row = refl

member-Lacks : Lacks admin_or_above 1 12 db
member-Lacks = Lacks-of_row admin_or_above 1 12 db member_row refl

outsider-unchanged_example :
    ((target : Option ℕ) (body : Option String)
      → (update_member_role env (some 12) (some 1) target body db).1 ≡ db)
    × ((target : Option ℕ) → (remove_member env (some 12) (some 1) target db).1 ≡ db)
    × ((body : Option CreateInviteRequest) → (create env (some 12) (some 1) body db).1 ≡ db)
    × ((id : Option ℕ) → (revoke env (some 12) (some 1) id db).1 ≡ db)
    × ((body : Option UpdateOrgRequest) → (update env (some 12) (some 1) body db).1 ≡ db)
outsider-unchanged_example = outsider-unchanged env 12 1 db member-Lacks

admin_row : get_org_membership 1 11 db ≡ some (new_membership 2 102 1 11 org_admin)
unfolding get_org_membership
admin_row = refl

admin-Lacks : Lacks is_owner 1 11 db
admin-Lacks = Lacks-of_row is_owner 1 11 db admin_row refl

-- an admin invites somebody and is then removed by the owner
OrgReach-Keeps_example :
    Keeps db
      (remove_member env (some 10) (some 1) (some 11) (create env (some 11) (some 1) none db).1).1
OrgReach-Keeps_example =
    OrgReach-Keeps
      (after (after at_start (inviting env (some 11) (some 1) none db))
        (removing env (some 10) (some 1) (some 11) (create env (some 11) (some 1) none db).1))
      db-IsValid
