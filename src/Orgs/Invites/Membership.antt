-- ===== src/Orgs/Invites/Membership.antt =====
-- What the invite handlers do to the members of an organization.
use zagforge_mvp.Prelude.{
  ℕ, ◌+◌, ◌≤◌, ◌<◌, String, ◌≡◌, refl, sym, true, false, ◌&&◌, Option, some, [], ◌∷◌, ◌++◌, arith,
  pos, leℤ, int32, ==_refl, count_where-append, any_where, Bool-cases, inl, inr, subst,
}
use zagforge_mvp.Orgs.Model.{Organization, Invite, OrgDb}
use zagforge_mvp.Orgs.Queries.{
  in_org, new_membership, get_organization_by_id, count_org_members, create_org_membership,
  get_invite_by_token_hash, accept_invite, is_open, has_invite_id,
}
use zagforge_mvp.Orgs.Access.{Reply, OrgEnv, assignable, logged}
use zagforge_mvp.Orgs.Owners.{
  IsValid, Keeps, Keeps-refl, Keeps-trans, owners-create_org_membership, assignable-not_owner,
}
use zagforge_mvp.Orgs.Untouched.{
  Keeps-logged, Keeps-create_invite, Keeps-revoke_invite, Keeps-accept_invite, found_assignable,
  logged-memberships,
}
use zagforge_mvp.Orgs.Invites.{CreateInviteRequest, on_org, create, revoke, accept}
use zagforge_mvp.Orgs.Invites.Outcomes.{
  CreateOutcome, create_refused, invite_created, RevokeOutcome, revoke_refused, invite_revoked,
  AcceptOutcome, accept_refused, only_consumed, invite_accepted, create-outcome, revoke-outcome,
  accept-outcome,
}

-- a new member is no owner
Keeps-join :
    {db : OrgDb} (v : IsValid db) (now id org user : ℕ) (role : String) (d : OrgDb)
    → assignable role ≡ true
    → create_org_membership now id org user role db ≡ some d
    → Keeps db d
Keeps-join v now id org user role d a h =
    let (valid, count) = owners-create_org_membership v now id org user role d h in
    record {
      valid = valid;
      owners_same = λ o. ground (arith, count o, assignable-not_owner role a);
    }

CreateOutcome-Keeps :
    {env : OrgEnv} {c o : Option ℕ} {b : Option CreateInviteRequest} {db : OrgDb} {r : Reply}
    {d : OrgDb}
    → IsValid db
    → CreateOutcome env c o b db r d
    → Keeps db d
CreateOutcome-Keeps v (create_refused code e le) = Keeps-refl v
CreateOutcome-Keeps {env} v (invite_created actor org req o d from admin a room made) =
    Keeps-logged env.fails _ (Keeps-create_invite v _ _ _ _ _ _ _ _ d a made)

RevokeOutcome-Keeps :
    {env : OrgEnv} {c o i : Option ℕ} {db : OrgDb} {r : Reply} {d : OrgDb}
    → IsValid db
    → RevokeOutcome env c o i db r d
    → Keeps db d
RevokeOutcome-Keeps v (revoke_refused code e le) = Keeps-refl v
RevokeOutcome-Keeps {env} v (invite_revoked actor org id from admin) =
    Keeps-logged env.fails _ (Keeps-revoke_invite v id org)

AcceptOutcome-Keeps :
    {env : OrgEnv} {c : Option ℕ} {b : Option String} {db : OrgDb} {r : Reply} {d : OrgDb}
    → IsValid db
    → AcceptOutcome env c b db r d
    → Keeps db d
AcceptOutcome-Keeps v (accept_refused code e le) = Keeps-refl v
AcceptOutcome-Keeps {env} v (only_consumed token inv mid is_token found used) =
    Keeps-accept_invite v env.now inv.id mid used
AcceptOutcome-Keeps {env} v (invite_accepted user token inv o mid d from found room used joined) =
    let k = Keeps-accept_invite v env.now inv.id mid used in
    let l = Keeps-join k.valid _ _ _ _ _ d (found_assignable v env.now _ found) joined in
    Keeps-logged env.fails _ (Keeps-trans k l)

-- Creating, revoking and accepting an invite, whether answered or refused, keep the database valid
-- and leave every organization with as many owners as before.
pub invites-Keeps :
    (env : OrgEnv) {db : OrgDb}
    → IsValid db
    → ((claims org_param : Option ℕ) (body : Option CreateInviteRequest)
        → Keeps db (create env claims org_param body db).1)
      × ((claims org_param invite_param : Option ℕ)
          → Keeps db (revoke env claims org_param invite_param db).1)
      × ((claims : Option ℕ) (body : Option String) → Keeps db (accept env claims body db).1)
invites-Keeps env {db} v = (
  λ claims org_param body. CreateOutcome-Keeps v (create-outcome env db claims org_param body),
  λ claims org_param invite_param.
      RevokeOutcome-Keeps v (revoke-outcome env db claims org_param invite_param),
  λ claims body. AcceptOutcome-Keeps v (accept-outcome env db claims body),
)

-- a count that fits 32 bits and is under the limit
int32_room : (n m : ℕ) → n < 2147483648 → leℤ (pos m) (int32 n) ≡ false → n + 1 ≤ m
int32_room n m h k = ground arith

count_org_members-same :
    (org : ℕ) (db d : OrgDb)
    → d.memberships ≡ db.memberships
    → count_org_members org d ≡ count_org_members org db
unfolding count_org_members
count_org_members-same org db d e = rw e refl

accept_invite-memberships :
    (now id : ℕ) (db d : OrgDb) → accept_invite now id db ≡ some d → d.memberships ≡ db.memberships
unfolding accept_invite
accept_invite-memberships now id db d h =
    elim (Bool-cases (any_where (λ i. has_invite_id id i && is_open now i) db.invites)) [
      | inl e ↦ ground arith
      | inr e ↦ absurd (ground arith)
    ]

count-create_org_membership :
    (now id org user : ℕ) (role : String) (db d : OrgDb)
    → create_org_membership now id org user role db ≡ some d
    → count_org_members org d ≡ count_org_members org db + 1
unfolding count_org_members create_org_membership
count-create_org_membership now id org user role db d h =
    let row = new_membership now id org user role in
    let rows : d.memberships ≡ db.memberships ++ row ∷ [] = ground arith in
    rw rows (ground (arith, ==_refl org, count_where-append (in_org org) db.memberships (row ∷ [])))

-- the organization of the invite gains one member and stays within its limit
abbrev pub JoinsWithinLimit : ℕ → ℕ → OrgDb → OrgDb → Type 0
JoinsWithinLimit org max db d =
    (count_org_members org d ≡ count_org_members org db + 1) × (count_org_members org d ≤ max)

accept_within :
    {env : OrgEnv} {c : Option ℕ} {db : OrgDb} {r : Reply} {d : OrgDb} (token : String)
    (inv : Invite) (o : Organization) (max : ℕ)
    → AcceptOutcome env c (some token) db r d
    → r.code ≡ 200
    → get_invite_by_token_hash env.now (env.hash_token token) db ≡ some inv
    → get_organization_by_id inv.org_id db ≡ some o
    → o.max_members ≡ pos max
    → count_org_members inv.org_id db < 2147483648
    → JoinsWithinLimit inv.org_id max db d
accept_within token inv o max (accept_refused code e le) h is_inv is_org is_max fits =
    absurd (omega arith)
accept_within token inv o max (only_consumed t i mid is_token found used) h is_inv is_org is_max
      fits =
    absurd (omega arith)
accept_within {env} {db = db} token inv o max
      (invite_accepted user t i o' mid d from found (o_found, room) used joined) h is_inv is_org
      is_max fits =
    let t_same : t ≡ token = ground arith in
    let again : get_invite_by_token_hash env.now (env.hash_token token) db ≡ some i =
      subst (λ s. get_invite_by_token_hash env.now (env.hash_token s) db ≡ some i) t_same found in
    let same : i ≡ inv = ground arith in
    let org_same : i.org_id ≡ inv.org_id = ground arith in
    let row : get_organization_by_id inv.org_id db ≡ some o' = rw (sym org_same) o_found in
    let o_same : o' ≡ o = ground arith in
    let left : leℤ o.max_members (int32 (count_org_members inv.org_id db)) ≡ false =
      subst (λ k. leℤ o.max_members (int32 (count_org_members k db)) ≡ false) org_same
        (subst (λ x. leℤ x.max_members (int32 (count_org_members i.org_id db)) ≡ false) o_same
          room) in
    let under : count_org_members inv.org_id db + 1 ≤ max =
      int32_room (count_org_members inv.org_id db) max fits
        (subst (λ z. leℤ z (int32 (count_org_members inv.org_id db)) ≡ false) is_max left) in
    let entry = on_org i.org_id user "invite.accepted" in
    let one_more = count-create_org_membership _ _ _ _ _ mid d joined in
    let kept = count_org_members-same i.org_id db mid (accept_invite-memberships _ _ db mid used) in
    let last =
      count_org_members-same i.org_id d (logged env.fails entry d)
        (logged-memberships env.fails entry d) in
    let total : count_org_members i.org_id (logged env.fails entry d)
        ≡ count_org_members i.org_id db + 1 =
      omega arith in
    let total' : count_org_members inv.org_id (logged env.fails entry d)
        ≡ count_org_members inv.org_id db + 1 =
      subst (λ k. count_org_members k (logged env.fails entry d) ≡ count_org_members k db + 1)
        org_same total in
    (total', omega arith)

-- Accepting an invite with answer 200 adds one member to the organization of the invite that the
-- token finds; if the organization's limit is not negative and its members before were fewer than
-- 2^31, the members afterwards are within the limit.
pub accept-within_limit :
    (env : OrgEnv) (claims : Option ℕ) (token : String) (db : OrgDb) (inv : Invite)
    (o : Organization) (max : ℕ)
    → (accept env claims (some token) db).0.code ≡ 200
    → get_invite_by_token_hash env.now (env.hash_token token) db ≡ some inv
    → get_organization_by_id inv.org_id db ≡ some o
    → o.max_members ≡ pos max
    → count_org_members inv.org_id db < 2147483648
    → JoinsWithinLimit inv.org_id max db (accept env claims (some token) db).1
accept-within_limit env claims token db inv o max =
    accept_within token inv o max (accept-outcome env db claims (some token))
