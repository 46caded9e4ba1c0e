-- ===== src/Orgs/Members/Kept.antt =====
-- The members of an organization after a change of a role or a removal, whatever the answer.
use zagforge_mvp.Prelude.{ℕ, String, Option}
use zagforge_mvp.Orgs.Model.{OrgDb}
use zagforge_mvp.Orgs.Access.{Reply, OrgEnv}
use zagforge_mvp.Orgs.Owners.{
  IsValid, Keeps, Keeps-refl, Keeps-update_org_member_role, Keeps-delete_org_membership,
}
use zagforge_mvp.Orgs.Untouched.{Keeps-logged}
use zagforge_mvp.Orgs.Members.{update_member_role, remove_member}
use zagforge_mvp.Orgs.Members.Outcomes.{
  RoleOutcome, role_refused, role_updated, RemoveOutcome, remove_refused, removed,
  update_member_role-outcome, remove_member-outcome,
}

RoleOutcome-Keeps :
    {env : OrgEnv} {c o t : Option ℕ} {b : Option String} {db : OrgDb} {r : Reply} {d : OrgDb}
    → IsValid db
    → RoleOutcome env c o t b db r d
    → Keeps db d
RoleOutcome-Keeps v (role_refused code e le) = Keeps-refl v
RoleOutcome-Keeps {env} v (role_updated org actor target role from text a (m, found, plain) valid) =
    Keeps-logged env.fails _
      (Keeps-update_org_member_role v env.now org target role found plain valid)

-- Changing a member's role, whether it is answered or refused, keeps the database valid and leaves
-- every organization with as many owners as before.
pub update_member_role-Keeps :
    (env : OrgEnv) (claims org_param target_param : Option ℕ) (body : Option String) {db : OrgDb}
    → IsValid db
    → Keeps db (update_member_role env claims org_param target_param body db).1
update_member_role-Keeps env claims org_param target_param body {db} v =
    RoleOutcome-Keeps v (update_member_role-outcome env db claims org_param target_param body)

RemoveOutcome-Keeps :
    {env : OrgEnv} {c o t : Option ℕ} {db : OrgDb} {r : Reply} {d : OrgDb}
    → IsValid db
    → RemoveOutcome env c o t db r d
    → Keeps db d
RemoveOutcome-Keeps v (remove_refused code e le) = Keeps-refl v
RemoveOutcome-Keeps {env} v (removed org actor target from a (m, found, plain)) =
    Keeps-logged env.fails _ (Keeps-delete_org_membership v org target found plain)

-- Removing a member, whether it is answered or refused, keeps the database valid and leaves every
-- organization with as many owners as before.
pub remove_member-Keeps :
    (env : OrgEnv) (claims org_param target_param : Option ℕ) {db : OrgDb}
    → IsValid db
    → Keeps db (remove_member env claims org_param target_param db).1
remove_member-Keeps env claims org_param target_param {db} v =
    RemoveOutcome-Keeps v (remove_member-outcome env db claims org_param target_param)
