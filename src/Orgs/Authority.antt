-- ===== src/Orgs/Authority.antt =====
-- Who may change an organization.
use zagforge_mvp.Prelude.{ℕ, String, ◌≡◌, refl, Bool, true, false, Option, some, arith, subst}
use zagforge_mvp.Orgs.Model.{OrgMembership, OrgDb}
use zagforge_mvp.Orgs.Queries.{get_org_membership}
use zagforge_mvp.Orgs.Access.{Reply, OrgEnv, admin_or_above, is_owner}
use zagforge_mvp.Orgs.Settings.{UpdateOrgRequest, update, delete}
use zagforge_mvp.Orgs.Settings.Outcomes.{
  UpdateOutcome, update_refused, no_row, org_updated, DeleteOutcome, delete_refused, org_deleted,
  update-outcome, delete-outcome,
}
use zagforge_mvp.Orgs.Members.{update_member_role, remove_member, transfer_ownership}
use zagforge_mvp.Orgs.Members.Outcomes.{
  RoleOutcome, role_refused, role_updated, RemoveOutcome, remove_refused, removed, TransferOutcome,
  transfer_refused, half_transferred, transferred, update_member_role-outcome,
  remove_member-outcome, transfer_ownership-outcome,
}
use zagforge_mvp.Orgs.Invites.{CreateInviteRequest, create, revoke}
use zagforge_mvp.Orgs.Invites.Outcomes.{
  CreateOutcome, create_refused, invite_created, RevokeOutcome, revoke_refused, invite_revoked,
  create-outcome, revoke-outcome,
}

-- no membership of the user in the organization, or one that passes no check of `P`
abbrev pub Lacks : (OrgMembership → Bool) → ℕ → ℕ → OrgDb → Type 0
Lacks p org user db = (m : OrgMembership) → get_org_membership org user db ≡ some m → p m ≡ false

pub Lacks-of_row :
    (p : OrgMembership → Bool) (org user : ℕ) (db : OrgDb) {k : OrgMembership}
    → get_org_membership org user db ≡ some k
    → p k ≡ false
    → Lacks p org user db
Lacks-of_row p org user db {k} row e m h =
    let same : k ≡ m = ground arith in subst (λ z. p z ≡ false) same e

-- a row that the check accepted contradicts it
pub refuted :
    (p : OrgMembership → Bool) (org user : ℕ) (db : OrgDb) {o a : ℕ} {m : OrgMembership}
    → Lacks p org user db
    → some user ≡ some a
    → some org ≡ some o
    → get_org_membership o a db ≡ some m
    → p m ≡ true
    → ⊥
refuted p org user db {o} {a} {m} lacks is_a is_o found rank =
    let a_same : a ≡ user = ground arith in
    let o_same : o ≡ org = ground arith in
    let row : get_org_membership org user db ≡ some m = ground arith in
    let denied : p m ≡ false = lacks m row in ground arith

module _ (env : OrgEnv) (user org : ℕ) {db : OrgDb} where
  role_unchanged :
      {t : Option ℕ} {b : Option String} {r : Reply} {d : OrgDb}
      → Lacks admin_or_above org user db
      → RoleOutcome env (some user) (some org) t b db r d
      → d ≡ db
  role_unchanged l (role_refused code e le) = refl
  role_unchanged l (role_updated o a t role from text (m, found, rank) target valid) =
      absurd (refuted admin_or_above org user db l from.0 from.1 found rank)

  remove_unchanged :
      {t : Option ℕ} {r : Reply} {d : OrgDb}
      → Lacks admin_or_above org user db
      → RemoveOutcome env (some user) (some org) t db r d
      → d ≡ db
  remove_unchanged l (remove_refused code e le) = refl
  remove_unchanged l (removed o a t from (m, found, rank) target) =
      absurd (refuted admin_or_above org user db l from.0 from.1 found rank)

  create_unchanged :
      {b : Option CreateInviteRequest} {r : Reply} {d : OrgDb}
      → Lacks admin_or_above org user db
      → CreateOutcome env (some user) (some org) b db r d
      → d ≡ db
  create_unchanged l (create_refused code e le) = refl
  create_unchanged l (invite_created a o req row d from (m, found, rank) valid room made) =
      absurd (refuted admin_or_above org user db l from.0 from.1 found rank)

  revoke_unchanged :
      {i : Option ℕ} {r : Reply} {d : OrgDb}
      → Lacks admin_or_above org user db
      → RevokeOutcome env (some user) (some org) i db r d
      → d ≡ db
  revoke_unchanged l (revoke_refused code e le) = refl
  revoke_unchanged l (invite_revoked a o id from (m, found, rank)) =
      absurd (refuted admin_or_above org user db l from.0 from.1 found rank)

  update_unchanged :
      {b : Option UpdateOrgRequest} {r : Reply} {d : OrgDb}
      → Lacks admin_or_above org user db
      → UpdateOutcome env (some user) (some org) b db r d
      → d ≡ db
  update_unchanged l (update_refused code e le) = refl
  update_unchanged l (no_row a o req from (m, found, rank) gone) =
      absurd (refuted admin_or_above org user db l from.0 from.1 found rank)
  update_unchanged l (org_updated a o req row from (m, found, rank) there) =
      absurd (refuted admin_or_above org user db l from.0 from.1 found rank)

  delete_unchanged :
      {r : Reply} {d : OrgDb}
      → Lacks is_owner org user db
      → DeleteOutcome env (some user) (some org) db r d
      → d ≡ db
  delete_unchanged l (delete_refused code e le) = refl
  delete_unchanged l (org_deleted a o from (m, found, rank)) =
      absurd (refuted is_owner org user db l from.0 from.1 found rank)

  transfer_unchanged :
      {b : Option String} {r : Reply} {d : OrgDb}
      → Lacks is_owner org user db
      → TransferOutcome env (some user) (some org) b db r d
      → d ≡ db
  transfer_unchanged l (transfer_refused code e le) = refl
  transfer_unchanged l (half_transferred o a n from (m, found, rank) target) =
      absurd (refuted is_owner org user db l from.0 from.1 found rank)
  transfer_unchanged l (transferred o a n from (m, found, rank) target) =
      absurd (refuted is_owner org user db l from.0 from.1 found rank)

-- A user who is neither owner nor admin of an organization changes nothing by asking to update its
-- details, a member's role, to remove a member, or to create or revoke an invite.
pub outsider-unchanged :
    (env : OrgEnv) (user org : ℕ) (db : OrgDb)
    → Lacks admin_or_above org user db
    → ((target : Option ℕ) (body : Option String)
        → (update_member_role env (some user) (some org) target body db).1 ≡ db)
      × ((target : Option ℕ) → (remove_member env (some user) (some org) target db).1 ≡ db)
      × ((body : Option CreateInviteRequest) → (create env (some user) (some org) body db).1 ≡ db)
      × ((id : Option ℕ) → (revoke env (some user) (some org) id db).1 ≡ db)
      × ((body : Option UpdateOrgRequest) → (update env (some user) (some org) body db).1 ≡ db)
outsider-unchanged env user org db l = (
  λ target body.
      role_unchanged env user org l
        (update_member_role-outcome env db (some user) (some org) target body),
  λ target.
      remove_unchanged env user org l (remove_member-outcome env db (some user) (some org) target),
  λ body. create_unchanged env user org l (create-outcome env db (some user) (some org) body),
  λ id. revoke_unchanged env user org l (revoke-outcome env db (some user) (some org) id),
  λ body. update_unchanged env user org l (update-outcome env db (some user) (some org) body),
)

-- A user who is not the owner of an organization changes nothing by asking to delete it or to
-- transfer its ownership.
pub non_owner-unchanged :
    (env : OrgEnv) (user org : ℕ) (db : OrgDb)
    → Lacks is_owner org user db
    → ((delete env (some user) (some org) db).1 ≡ db)
      × ((body : Option String) → (transfer_ownership env (some user) (some org) body db).1 ≡ db)
non_owner-unchanged env user org db l = (
  delete_unchanged env user org l (delete-outcome env db (some user) (some org)),
  λ body.
      transfer_unchanged env user org l
        (transfer_ownership-outcome env db (some user) (some org) body),
)
