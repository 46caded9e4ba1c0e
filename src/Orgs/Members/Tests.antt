-- ===== src/Orgs/Members/Tests.antt =====
-- The member handlers on a small organization.
use zagforge_mvp.Prelude.{◌≡◌, refl, some}
use zagforge_mvp.Prelude.Flow.{◌>>=◌, run}
use zagforge_mvp.Orgs.Model.{org_owner, org_admin}
use zagforge_mvp.Orgs.Queries.{get_org_membership, update_org_member_role, create_audit_log}
use zagforge_mvp.Orgs.Access.{logged, require_owner}
use zagforge_mvp.Orgs.Owners.{owners}
use zagforge_mvp.Orgs.Fixtures.{env, db, db-IsValid}
use zagforge_mvp.Orgs.Members.{hand_over, transfer_steps, transfer_ownership}
use zagforge_mvp.Orgs.Members.Ownership.{
  HasRole, transfer_ownership-one_owner, transfer_ownership-to_self,
}

handed_over : (transfer_ownership env (some 10) (some 1) (some "u11") db).0.code ≡ 200
unfolding transfer_ownership transfer_steps hand_over require_owner get_org_membership
    update_org_member_role logged create_audit_log run ◌>>=◌
handed_over = refl

transfer_ownership-one_owner_example :
    (owners 1 (transfer_ownership env (some 10) (some 1) (some "u11") db).1 ≡ 1)
    × HasRole 1 11 org_owner (transfer_ownership env (some 10) (some 1) (some "u11") db).1
    × HasRole 1 10 org_admin (transfer_ownership env (some 10) (some 1) (some "u11") db).1
transfer_ownership-one_owner_example =
    transfer_ownership-one_owner env 1 10 11 "u11" db db-IsValid refl refl refl handed_over

handed_to_self : (transfer_ownership env (some 10) (some 1) (some "u10") db).0.code ≡ 200
unfolding transfer_ownership transfer_steps hand_over require_owner get_org_membership
    update_org_member_role logged create_audit_log run ◌>>=◌
handed_to_self = refl

transfer_ownership-to_self_example :
    owners 1 (transfer_ownership env (some 10) (some 1) (some "u10") db).1 ≡ 0
transfer_ownership-to_self_example =
    transfer_ownership-to_self env 1 10 "u10" db db-IsValid refl refl handed_to_self
