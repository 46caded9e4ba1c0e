-- ===== src/Orgs/Invites/Tests.antt =====
-- The invite handlers on a small organization.
use zagforge_mvp.Prelude.{◌≤◌, ◌<◌, ◌≡◌, refl, some, arith}
use zagforge_mvp.Prelude.Flow.{◌>>=◌, run}
use zagforge_mvp.Orgs.Queries.{
  get_org_membership, get_organization_by_id, count_org_members, create_org_membership,
  get_invite_by_token_hash, accept_invite, revoke_invite, create_audit_log,
}
use zagforge_mvp.Orgs.Access.{logged, require_org_admin_or_owner}
use zagforge_mvp.Orgs.Fixtures.{env, acme, open_invite, db, db-InvitesUnique}
use zagforge_mvp.Orgs.Invites.{check_limit, revoke_steps, revoke, join, accept_steps, accept}
use zagforge_mvp.Orgs.Invites.Membership.{JoinsWithinLimit, accept-within_limit}
use zagforge_mvp.Orgs.Lifecycle.{revoking}
use zagforge_mvp.Orgs.Spent.{Later, at_once, step, accept-once}

joined : (accept env (some 13) (some "t") db).0.code ≡ 200
unfolding accept accept_steps check_limit join get_invite_by_token_hash get_organization_by_id
    count_org_members accept_invite create_org_membership logged create_audit_log run ◌>>=◌
joined = refl

withdrawn-Later :
    Later
      (accept env (some 13) (some "t") db).1
      (revoke env (some 11) (some 1) (some 20) (accept env (some 13) (some "t") db).1).1
withdrawn-Later =
    step at_once (revoking env (some 11) (some 1) (some 20) (accept env (some 13) (some "t") db).1)

accept-once_example :
    (400
      ≤ (accept env
          (some 14)
          (some "t")
          (revoke env
            (some 11)
            (some 1)
            (some 20)
            (accept env (some 13) (some "t") db).1).1).0.code)
    × ((accept env
          (some 14)
          (some "t")
          (revoke env (some 11) (some 1) (some 20) (accept env (some 13) (some "t") db).1).1).1
        ≡ (revoke env (some 11) (some 1) (some 20) (accept env (some 13) (some "t") db).1).1)
accept-once_example =
    accept-once env env (some 13) (some 14) "t" db
      (revoke env (some 11) (some 1) (some 20) (accept env (some 13) (some "t") db).1).1
      db-InvitesUnique refl joined withdrawn-Later

found : get_invite_by_token_hash env.now (env.hash_token "t") db ≡ some open_invite
unfolding get_invite_by_token_hash
found = refl

org_there : get_organization_by_id 1 db ≡ some acme
unfolding get_organization_by_id
org_there = refl

few_members : count_org_members 1 db < 2147483648
unfolding count_org_members
few_members = omega arith

accept-within_limit_example : JoinsWithinLimit 1 5 db (accept env (some 13) (some "t") db).1
accept-within_limit_example =
    accept-within_limit env (some 13) "t" db open_invite acme 5 joined found org_there refl
      few_members

withdrawn : (revoke env (some 11) (some 1) (some 20) db).0.code ≡ 200
unfolding revoke revoke_steps require_org_admin_or_owner get_org_membership revoke_invite logged
    create_audit_log run ◌>>=◌
withdrawn = refl
