-- ===== src/Orgs/Settings/Effects.antt =====
-- What the handlers of organizations do to the members and to the audit log.
use zagforge_mvp.Prelude.{
  ℕ, ◌+◌, String, ◌≡◌, refl, ◌∙◌, false, Option, some, List, [], ◌∷◌, arith, ◌==◌, if◌then◌else◌,
  count_where, count_where_mono, count_where_of_absent, any_where, delete_where, update_where,
  Bool-cases, inl, inr, subst,
}
use zagforge_mvp.Orgs.Model.{Organization, OrgMembership, OrgDb, Faults, org_owner}
use zagforge_mvp.Orgs.Queries.{
  has_org_id, in_org, of_org, without_org, create_organization, delete_organization,
  create_audit_log, count_org_members,
}
use zagforge_mvp.Orgs.Access.{Reply, OrgEnv, logged}
use zagforge_mvp.Orgs.Owners.{
  owner_row, owners, IsValid, Keeps, Keeps-refl, Keeps-same, owners-create_org_membership,
}
use zagforge_mvp.Orgs.Untouched.{Keeps-logged, Keeps-update_organization, logged-memberships}
use zagforge_mvp.Orgs.Settings.{CreateOrgRequest, UpdateOrgRequest, entry, create, update, delete}
use zagforge_mvp.Orgs.Settings.Outcomes.{
  CreateOutcome, create_refused, without_owner, org_created, UpdateOutcome, update_refused, no_row,
  org_updated, DeleteOutcome, delete_refused, org_deleted, create-outcome, update-outcome,
  delete-outcome,
}

UpdateOutcome-Keeps :
    {env : OrgEnv} {c o : Option ℕ} {b : Option UpdateOrgRequest} {db : OrgDb} {r : Reply}
    {d : OrgDb}
    → IsValid db
    → UpdateOutcome env c o b db r d
    → Keeps db d
UpdateOutcome-Keeps v (update_refused code e le) = Keeps-refl v
UpdateOutcome-Keeps {env} v (no_row actor org req from admin gone) =
    Keeps-update_organization v env.now org req.name _ _
UpdateOutcome-Keeps {env} v (org_updated actor org req row from admin found) =
    Keeps-logged env.fails _ (Keeps-update_organization v env.now org req.name _ _)

-- Updating an organization's details, whether it is answered or refused, keeps the database valid
-- and leaves every organization with as many owners as before.
pub update-Keeps :
    (env : OrgEnv) (claims org_param : Option ℕ) (body : Option UpdateOrgRequest) {db : OrgDb}
    → IsValid db
    → Keeps db (update env claims org_param body db).1
update-Keeps env claims org_param body {db} v =
    UpdateOutcome-Keeps v (update-outcome env db claims org_param body)

create_organization-Keeps :
    (now id : ℕ) (slug name : String) {db d : OrgDb}
    → IsValid db
    → create_organization now id slug name db ≡ some d
    → Keeps db d
unfolding create_organization
create_organization-Keeps now id slug name {db} {d} v h =
    let parts : (d.memberships ≡ db.memberships) × (d.invites ≡ db.invites) = ground arith in
    Keeps-same db d v parts.0 (rw parts.1 v.invites_assignable)

created_owner :
    {env : OrgEnv} {c : Option ℕ} {b : Option CreateOrgRequest} {db : OrgDb} {r : Reply} {d : OrgDb}
    → IsValid db
    → CreateOutcome env c b db r d
    → r.code ≡ 201
    → (o : ℕ) → owners o d ≡ owners o db + (if env.new_id == o then 1 else 0)
created_owner v (create_refused code e le) h o = absurd (omega arith)
created_owner v (without_owner req mid is_req made) h o = absurd (omega arith)
created_owner {env} {db = db} v (org_created user req mid d from made joined) h o =
    let k = create_organization-Keeps env.now env.new_id req.slug req.name v made in
    let (valid, count) =
      owners-create_org_membership k.valid env.now env.new_membership_id env.new_id user org_owner d
        joined in
    let log = entry env.new_id user "org.created" in
    rw (logged-memberships env.fails log d) (ground (arith, count o, k.owners_same o))

-- The creation of an organization that is answered 201 gives the organization exactly one owner, if
-- no membership had its fresh id before, and leaves every other organization with as many owners as
-- before.
pub create-one_owner :
    (env : OrgEnv) (claims : Option ℕ) (body : Option CreateOrgRequest) (db : OrgDb) (o : ℕ)
    → IsValid db
    → any_where (in_org env.new_id) db.memberships ≡ false
    → (create env claims body db).0.code ≡ 201
    → owners o (create env claims body db).1 ≡ (if env.new_id == o then 1 else owners o db)
create-one_owner env claims body db o v fresh h =
    let count = created_owner v (create-outcome env db claims body) h in
    let nobody : owners env.new_id db ≡ 0 = omega (
      arith,
      count_where_of_absent (in_org env.new_id) db.memberships fresh,
      count_where_mono (owner_row env.new_id) (in_org env.new_id) db.memberships
          (λ x e. ground arith),
    ) in
    elim (Bool-cases (env.new_id == o)) [
      | inl same ↦
          let eq : env.new_id ≡ o = ground arith in
          let none_here : owners o db ≡ 0 = subst (λ k. owners k db ≡ 0) eq nobody in
          ground (arith, count o)
      | inr differ ↦ ground (arith, count o)
    ]

rows_left :
    (org o : ℕ) (xs : List OrgMembership)
    → count_where (in_org o) (delete_where (in_org org) xs)
      ≡ (if org == o then 0 else count_where (in_org o) xs)
rows_left org o [] = ground arith
rows_left org o (x ∷ xs) = ground (arith, rows_left org o xs)

org_gone :
    (org : ℕ) (xs : List Organization)
    → any_where (has_org_id org) (delete_where (has_org_id org) xs) ≡ false
org_gone org [] = refl
org_gone org (x ∷ xs) = ground (arith, org_gone org xs)

-- the foreign key refuses the entry
not_logged :
    (fails : Faults) (org actor : ℕ) (action : String) (db : OrgDb)
    → logged fails (entry org actor action) (delete_organization org db)
      ≡ delete_organization org db
unfolding logged create_audit_log delete_organization
not_logged fails org actor action db = ground (arith, org_gone org db.organizations)

deleted :
    {env : OrgEnv} {c : Option ℕ} {org : ℕ} {db : OrgDb} {r : Reply} {d : OrgDb}
    → DeleteOutcome env c (some org) db r d
    → r.code ≡ 200
    → d ≡ delete_organization org db
deleted (delete_refused code e le) h = absurd (omega arith)
deleted {env} {org = org} {db = db} (org_deleted actor o from owner) h =
    let same : o ≡ org = ground arith in
    not_logged env.fails o actor "org.deleted" db ∙ (rw same refl)

-- The deletion of an organization that is answered 200 leaves it without members, leaves the member
-- count of every other organization as it was, and adds no entry to the audit log: of the log, only
-- the references to the organization are cleared.
pub delete-effect :
    (env : OrgEnv) (claims : Option ℕ) (org : ℕ) (db : OrgDb)
    → (delete env claims (some org) db).0.code ≡ 200
    → ((o : ℕ)
        → count_org_members o (delete env claims (some org) db).1
          ≡ (if org == o then 0 else count_org_members o db))
      × ((delete env claims (some org) db).1.audit_logs
          ≡ update_where (of_org org) without_org db.audit_logs)
unfolding count_org_members delete_organization
delete-effect env claims org db h =
    rw (deleted (delete-outcome env db claims (some org)) h)
      (λ o. rows_left org o db.memberships, refl)
