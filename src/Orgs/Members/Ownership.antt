-- ===== src/Orgs/Members/Ownership.antt =====
-- What an ownership transfer does to the owners.
use zagforge_mvp.Prelude.{
  ℕ, String, ◌≡◌, refl, sym, ◌∙◌, Bool, true, false, none, some, arith, ◌==◌, ==_refl,
  if◌then◌else◌, find, find_sound, update_where, count_where, subst, List, [], ◌∷◌, delete_where,
  count_where-delete_one, Bool-cases, inl, inr,
}
use zagforge_mvp.Orgs.Model.{AuditLog, Faults, OrgMembership, OrgDb, org_owner, org_admin}
use zagforge_mvp.Orgs.Queries.{member_of, set_role, get_org_membership, update_org_member_role}
use zagforge_mvp.Orgs.Access.{Reply, OrgEnv, is_owner, logged}
use zagforge_mvp.Orgs.Owners.{
  owner_row, owners, IsValid, owners-update_org_member_role, IsValid-update_org_member_role,
}
use zagforge_mvp.Orgs.Untouched.{logged-memberships}
use zagforge_mvp.Orgs.Members.{transfer_ownership}
use zagforge_mvp.Orgs.Members.Outcomes.{
  TransferOutcome, transfer_refused, half_transferred, transferred, both_roles, Accepted,
  transfer_ownership-outcome,
}

-- the row of another user is not touched, the row of the user has the role
get_org_membership-update :
    (now org user other : ℕ) (role : String) (db : OrgDb)
    → get_org_membership org other (update_org_member_role now org user role db)
      ≡ elim (get_org_membership org other db) [
        | none ↦ none
        | some m ↦ some (if user == other then set_role now role m else m)
      ]
unfolding get_org_membership update_org_member_role
get_org_membership-update now org user other role db = rows db.memberships
  where
    rows :
        (xs : List OrgMembership)
        → find (member_of org other) (update_where (member_of org user) (set_role now role) xs)
          ≡ elim (find (member_of org other) xs) [
            | none ↦ none
            | some m ↦ some (if user == other then set_role now role m else m)
          ]
    rows [] = refl
    rows (x ∷ xs) = ground (arith, rows xs)

found_org :
    (org user : ℕ) (db : OrgDb) {m : OrgMembership}
    → get_org_membership org user db ≡ some m
    → m.org_id ≡ org
unfolding get_org_membership
found_org org user db {m} h = ground (arith, find_sound (member_of org user) db.memberships {x = m})

find_not_counted :
    (p q : OrgMembership → Bool) (xs : List OrgMembership) {n : OrgMembership}
    → count_where q xs ≡ 0
    → find p xs ≡ some n
    → q n ≡ false
find_not_counted p q [] h k = ground arith
find_not_counted p q (x ∷ xs) {n} h k = ground (arith, find_not_counted p q xs {n = n})

find-delete_other :
    (org user other : ℕ) (xs : List OrgMembership)
    → (user == other) ≡ false
    → find (member_of org other) (delete_where (member_of org user) xs)
      ≡ find (member_of org other) xs
find-delete_other org user other [] h = refl
find-delete_other org user other (x ∷ xs) h = ground (arith, find-delete_other org user other xs h)

module _ (env : OrgEnv) (db : OrgDb) (v : IsValid db) where
  -- the only owner is the actor
  other_is_plain :
      (org actor other : ℕ) {a n : OrgMembership}
      → get_org_membership org actor db ≡ some a
      → is_owner a ≡ true
      → owners org db ≡ 1
      → get_org_membership org other db ≡ some n
      → (actor == other) ≡ false
      → owner_row org n ≡ false
  unfolding get_org_membership
  other_is_plain org actor other {a} {n} a_found a_owner one n_found differ =
      let left : count_where (owner_row org) (delete_where (member_of org actor) db.memberships)
          ≡ 0 =
        ground (
          arith,
          find_sound (member_of org actor) db.memberships {x = a},
          count_where-delete_one (member_of org actor) (owner_row org) db.memberships {m = a}
              (v.members_unique org actor) a_found,
        ) in
      find_not_counted (member_of org other) (owner_row org)
        (delete_where (member_of org actor) db.memberships) left
        (find-delete_other org actor other db.memberships differ ∙ n_found)

  -- the two updates of a transfer, one after the other
  owners-both_roles :
      (org actor new_owner : ℕ) {a n : OrgMembership}
      → get_org_membership org actor db ≡ some a
      → is_owner a ≡ true
      → get_org_membership org new_owner db ≡ some n
      → owners org db ≡ 1
      → owners org (both_roles env org actor new_owner db) ≡ (if actor == new_owner then 0 else 1)
  owners-both_roles org actor new_owner {a} {n} a_found a_owner n_found one =
      let mid = update_org_member_role env.now org new_owner org_owner db in
      let mid_valid : IsValid mid =
        IsValid-update_org_member_role v env.now org new_owner org_owner in
      let a_org : a.org_id ≡ org = found_org org actor db a_found in
      let n_org : n.org_id ≡ org = found_org org new_owner db n_found in
      let first = owners-update_org_member_role v env.now org new_owner org_owner org n_found in
      elim (Bool-cases (actor == new_owner)) [
        | inl same ↦
            let eq : new_owner ≡ actor = ground arith in
            let row : get_org_membership org actor db ≡ some n = rw (sym eq) n_found in
            let now_owner : get_org_membership org actor mid ≡ some (set_role env.now org_owner n) =
              ground (arith, get_org_membership-update env.now org new_owner actor org_owner db) in
            let n_owner : is_owner n ≡ true = ground arith in
            let second =
              owners-update_org_member_role mid_valid env.now org actor org_admin org now_owner in
            ground arith
        | inr differ ↦
            let plain = other_is_plain org actor new_owner a_found a_owner one n_found differ in
            let kept : get_org_membership org actor mid ≡ some a =
              ground (arith, get_org_membership-update env.now org new_owner actor org_owner db) in
            let second =
              owners-update_org_member_role mid_valid env.now org actor org_admin org kept in
            ground arith
      ]

-- the user is a member with the role
abbrev pub HasRole : ℕ → ℕ → String → OrgDb → Type 0
HasRole org user role d =
    (m : OrgMembership) × (get_org_membership org user d ≡ some m) × (m.role ≡ role)

owners-logged :
    (fails : Faults) (l : AuditLog) (org : ℕ) (d : OrgDb)
    → owners org (logged fails l d) ≡ owners org d
owners-logged fails l org d = rw (logged-memberships fails l d) refl

HasRole-logged :
    (fails : Faults) (l : AuditLog) (org user : ℕ) (role : String) (d : OrgDb)
    → HasRole org user role d
    → HasRole org user role (logged fails l d)
unfolding get_org_membership
HasRole-logged fails l org user role d (m, found, is_role) =
    (m, rw (logged-memberships fails l d) found, is_role)

roles_swapped :
    (env : OrgEnv) (db : OrgDb) (org actor new_owner : ℕ) {a n : OrgMembership}
    → get_org_membership org actor db ≡ some a
    → get_org_membership org new_owner db ≡ some n
    → (actor == new_owner) ≡ false
    → HasRole org new_owner org_owner (both_roles env org actor new_owner db)
      × HasRole org actor org_admin (both_roles env org actor new_owner db)
roles_swapped env db org actor new_owner {a} {n} a_found n_found differ =
    let mid = update_org_member_role env.now org new_owner org_owner db in
    let kept : get_org_membership org actor mid ≡ some a =
      ground (arith, get_org_membership-update env.now org new_owner actor org_owner db) in
    let promoted : get_org_membership org new_owner mid ≡ some (set_role env.now org_owner n) =
      ground (arith, get_org_membership-update env.now org new_owner new_owner org_owner db) in
    (
      (
        set_role env.now org_owner n,
        ground (arith, get_org_membership-update env.now org actor new_owner org_admin mid),
        refl,
      ),
      (
        set_role env.now org_admin a,
        ground (arith, get_org_membership-update env.now org actor actor org_admin mid),
        refl,
      ),
    )

-- an accepted transfer is the one of its arguments
Accepted-same :
    (env : OrgEnv) {org actor new_owner o a n : ℕ} {text : String}
    → Accepted env (some actor) (some org) (some text) o a n
    → env.scan_uuid text ≡ some new_owner
    → (o ≡ org) × (a ≡ actor) × (n ≡ new_owner)
Accepted-same env {org} {actor} {new_owner} {o} {a} {n} {text} (is_a, is_o, (t, is_t, is_n)) scan =
    let same_text : t ≡ text = ground arith in
    let scanned : env.scan_uuid text ≡ some n =
      subst (λ s. env.scan_uuid s ≡ some n) same_text is_n in
    (ground arith, ground arith, ground arith)

transfer_moves :
    {env : OrgEnv} {db : OrgDb} {r : Reply} {d : OrgDb} (org actor new_owner : ℕ) (text : String)
    → IsValid db
    → TransferOutcome env (some actor) (some org) (some text) db r d
    → r.code ≡ 200
    → owners org db ≡ 1
    → env.scan_uuid text ≡ some new_owner
    → (owners org d ≡ (if actor == new_owner then 0 else 1))
      × ((actor == new_owner) ≡ false
          → HasRole org new_owner org_owner d × HasRole org actor org_admin d)
transfer_moves org actor new_owner text v (transfer_refused code e le) h one scan =
    absurd (omega arith)
transfer_moves org actor new_owner text v (half_transferred o a n c am nm) h one scan =
    absurd (omega arith)
transfer_moves {env} {db} org actor new_owner text v
      (transferred o a n c (am, am_found, am_owner) (nm, nm_found, _)) h one scan =
    let (o_same, a_same, n_same) = Accepted-same env c scan in
    let a_row : get_org_membership org actor db ≡ some am = ground arith in
    let n_row : get_org_membership org new_owner db ≡ some nm = ground arith in
    let count = owners-both_roles env db v org actor new_owner a_row am_owner n_row one in
    rw (o_same, a_same, n_same)
      (
        owners-logged env.fails _ org _ ∙ count,
        λ differ.
            let (new_role, old_role) =
              roles_swapped env db org actor new_owner a_row n_row differ in
            (
              HasRole-logged env.fails _ org new_owner org_owner _ new_role,
              HasRole-logged env.fails _ org actor org_admin _ old_role,
            ),
      )

-- An ownership transfer that is answered 200, from a valid database in which the organization has
-- one owner, leaves it with one owner, the new one, and the actor as an admin, if the new owner is
-- not the actor.
pub transfer_ownership-one_owner :
    (env : OrgEnv) (org actor new_owner : ℕ) (text : String) (db : OrgDb)
    → IsValid db
    → owners org db ≡ 1
    → env.scan_uuid text ≡ some new_owner
    → (actor == new_owner) ≡ false
    → (transfer_ownership env (some actor) (some org) (some text) db).0.code ≡ 200
    → (owners org (transfer_ownership env (some actor) (some org) (some text) db).1 ≡ 1)
      × HasRole org new_owner org_owner
          (transfer_ownership env (some actor) (some org) (some text) db).1
      × HasRole org actor org_admin
          (transfer_ownership env (some actor) (some org) (some text) db).1
transfer_ownership-one_owner env org actor new_owner text db v one scan differ h =
    let (count, roles) =
      transfer_moves org actor new_owner text v
        (transfer_ownership-outcome env db (some actor) (some org) (some text)) h one scan in
    (ground arith, (roles differ).0, (roles differ).1)

-- An ownership transfer to the owner itself that is answered 200, from a valid database in which
-- the organization has one owner, leaves the organization without an owner.
pub transfer_ownership-to_self :
    (env : OrgEnv) (org actor : ℕ) (text : String) (db : OrgDb)
    → IsValid db
    → owners org db ≡ 1
    → env.scan_uuid text ≡ some actor
    → (transfer_ownership env (some actor) (some org) (some text) db).0.code ≡ 200
    → owners org (transfer_ownership env (some actor) (some org) (some text) db).1 ≡ 0
transfer_ownership-to_self env org actor text db v one scan h =
    let (count, roles) =
      transfer_moves org actor actor text v
        (transfer_ownership-outcome env db (some actor) (some org) (some text)) h one scan in
    ground (arith, ==_refl actor)
