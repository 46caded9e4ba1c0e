-- ===== src/Orgs/Lifecycle.antt =====
-- Any sequence of the calls that change members, invites and settings, as a step relation.
use zagforge_mvp.Prelude.{ℕ, String, Option}
use zagforge_mvp.Orgs.Model.{OrgDb}
use zagforge_mvp.Orgs.Access.{OrgEnv}
use zagforge_mvp.Orgs.Owners.{IsValid, Keeps, Keeps-refl, Keeps-trans}
use zagforge_mvp.Orgs.Settings.{UpdateOrgRequest, update}
use zagforge_mvp.Orgs.Settings.Effects.{update-Keeps}
use zagforge_mvp.Orgs.Members.{update_member_role, remove_member}
use zagforge_mvp.Orgs.Members.Kept.{update_member_role-Keeps, remove_member-Keeps}
use zagforge_mvp.Orgs.Invites.{CreateInviteRequest, create, revoke, accept}
use zagforge_mvp.Orgs.Invites.Membership.{invites-Keeps}

pub data OrgStep : OrgDb → OrgDb → Type 0 where
  updating :
      (env : OrgEnv) (claims org_param : Option ℕ) (body : Option UpdateOrgRequest) (db : OrgDb)
      → OrgStep db (update env claims org_param body db).1
  changing_role :
      (env : OrgEnv) (claims org_param target_param : Option ℕ) (body : Option String) (db : OrgDb)
      → OrgStep db (update_member_role env claims org_param target_param body db).1
  removing :
      (env : OrgEnv) (claims org_param target_param : Option ℕ) (db : OrgDb)
      → OrgStep db (remove_member env claims org_param target_param db).1
  inviting :
      (env : OrgEnv) (claims org_param : Option ℕ) (body : Option CreateInviteRequest) (db : OrgDb)
      → OrgStep db (create env claims org_param body db).1
  revoking :
      (env : OrgEnv) (claims org_param invite_param : Option ℕ) (db : OrgDb)
      → OrgStep db (revoke env claims org_param invite_param db).1
  accepting :
      (env : OrgEnv) (claims : Option ℕ) (body : Option String) (db : OrgDb)
      → OrgStep db (accept env claims body db).1

pub data OrgReach (db : OrgDb) : OrgDb → Type 0 where
  at_start : OrgReach db db
  after : {mid last : OrgDb} → OrgReach db mid → OrgStep mid last → OrgReach db last

OrgStep-Keeps : {db d : OrgDb} → OrgStep db d → IsValid db → Keeps db d
OrgStep-Keeps (updating env claims org_param body db) v = update-Keeps env claims org_param body v
OrgStep-Keeps (changing_role env claims org_param target_param body db) v =
    update_member_role-Keeps env claims org_param target_param body v
OrgStep-Keeps (removing env claims org_param target_param db) v =
    remove_member-Keeps env claims org_param target_param v
OrgStep-Keeps (inviting env claims org_param body db) v =
    (invites-Keeps env v).0 claims org_param body
OrgStep-Keeps (revoking env claims org_param invite_param db) v =
    (invites-Keeps env v).1 claims org_param invite_param
OrgStep-Keeps (accepting env claims body db) v = (invites-Keeps env v).2 claims body

-- Whatever updates of an organization, changes of roles, removals of members and creations,
-- revocations and acceptances of invites come in, whoever calls and whatever statements fail, from a
-- valid database: every organization keeps the number of its owners, nobody is a member of an
-- organization twice and no invite is for an owner.
pub OrgReach-Keeps : {db d : OrgDb} → OrgReach db d → IsValid db → Keeps db d
OrgReach-Keeps at_start v = Keeps-refl v
OrgReach-Keeps (after r s) v =
    let before = OrgReach-Keeps r v in Keeps-trans before (OrgStep-Keeps s before.valid)
