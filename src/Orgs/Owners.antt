-- ===== src/Orgs/Owners.antt =====
-- How many owners an organization has, through each statement of Queries.
use zagforge_mvp.Prelude.{
  ℕ, ◌+◌, ◌≤◌, String, ◌≡◌, refl, ◌∙◌, Bool, true, false, false≢true, ◌&&◌, some, [], ◌∷◌, ◌++◌,
  arith, str_eq, eq_iff, ◌==◌, count_where, any_where, All, count_where-append,
  count_where-update_one, count_where-delete_one, count_where-delete_le, count_where-update_same,
  count_where_of_absent, bit, Bool-cases, inl, inr, subst,
}
use zagforge_mvp.Orgs.Model.{OrgMembership, OrgDb, org_owner}
use zagforge_mvp.Orgs.Queries.{
  has_org_id, member_of, set_role, new_membership, get_org_membership, create_org_membership,
  update_org_member_role, delete_org_membership,
}
use zagforge_mvp.Orgs.Access.{assignable, is_owner}

abbrev pub owner_row : ℕ → OrgMembership → Bool
owner_row org m = m.org_id == org && is_owner m

abbrev pub owners : ℕ → OrgDb → ℕ
owners org db = count_where (owner_row org) db.memberships

-- the unique key of org_memberships, and the rule on the role column of invites
pub record IsValid (db : OrgDb) : Type 0 where
  pub members_unique : (org user : ℕ) → count_where (member_of org user) db.memberships ≤ 1
  pub invites_assignable : All (λ i. assignable i.role ≡ true) db.invites

-- the database stays valid and no organization gains or loses an owner
pub record Keeps (db d : OrgDb) : Type 0 where
  pub valid : IsValid d
  pub owners_same : (org : ℕ) → owners org d ≡ owners org db

pub Keeps-refl : {db : OrgDb} → IsValid db → Keeps db db
Keeps-refl v = record { valid = v; owners_same = λ org. refl }

pub Keeps-trans : {a b c : OrgDb} → Keeps a b → Keeps b c → Keeps a c
Keeps-trans k l = record {
  valid = l.valid;
  owners_same = λ org. l.owners_same org ∙ k.owners_same org;
}

-- the other tables do not matter
pub Keeps-same :
    (db d : OrgDb)
    → IsValid db
    → d.memberships ≡ db.memberships
    → All (λ i. assignable i.role ≡ true) d.invites
    → Keeps db d
Keeps-same db d v e a = record {
  valid = record { members_unique = λ o u. rw e (v.members_unique o u); invites_assignable = a };
  owners_same = λ org. rw e refl;
}

pub assignable-not_owner : (r : String) → assignable r ≡ true → str_eq r org_owner ≡ false
assignable-not_owner r h = elim (Bool-cases (str_eq r "owner")) [
  | inr e ↦ e
  | inl e ↦ absurd (false≢true (subst (λ u. assignable u ≡ true) ((eq_iff r "owner").0 e) h))
]

module _ {db : OrgDb} (v : IsValid db) where
  unique-update_role :
      (now org user : ℕ) (role : String) (o u : ℕ)
      → count_where (member_of o u) (update_org_member_role now org user role db).memberships ≤ 1
  unfolding update_org_member_role
  unique-update_role now org user role o u = omega (
    arith,
    v.members_unique o u,
    count_where-update_same (member_of org user) (member_of o u) (set_role now role) db.memberships
        (λ x. refl),
  )

  -- the owners of each organization after the update of one role
  pub owners-update_org_member_role :
      (now org user : ℕ) (role : String) (o : ℕ) {m : OrgMembership}
      → get_org_membership org user db ≡ some m
      → owners o (update_org_member_role now org user role db) + bit (owner_row o m)
        ≡ owners o db + bit (owner_row o (set_role now role m))
  unfolding update_org_member_role get_org_membership
  owners-update_org_member_role now org user role o h =
      count_where-update_one (member_of org user) (owner_row o) (set_role now role) db.memberships
        (v.members_unique org user) h

  pub IsValid-update_org_member_role :
      (now org user : ℕ) (role : String) → IsValid (update_org_member_role now org user role db)
  unfolding update_org_member_role
  IsValid-update_org_member_role now org user role = record {
    members_unique = unique-update_role now org user role;
    invites_assignable = v.invites_assignable;
  }

  pub Keeps-update_org_member_role :
      (now org user : ℕ) (role : String) {m : OrgMembership}
      → get_org_membership org user db ≡ some m
      → is_owner m ≡ false
      → assignable role ≡ true
      → Keeps db (update_org_member_role now org user role db)
  Keeps-update_org_member_role now org user role {m} h plain a = record {
    valid = IsValid-update_org_member_role now org user role;
    owners_same = λ o. ground (
      arith,
      assignable-not_owner role a,
      owners-update_org_member_role now org user role o {m = m} h,
    );
  }

  pub Keeps-delete_org_membership :
      (org user : ℕ) {m : OrgMembership}
      → get_org_membership org user db ≡ some m
      → is_owner m ≡ false
      → Keeps db (delete_org_membership org user db)
  unfolding delete_org_membership get_org_membership
  Keeps-delete_org_membership org user {m} h plain = record {
    valid = record {
      members_unique = λ o u. omega (
        arith,
        v.members_unique o u,
        count_where-delete_le (member_of org user) (member_of o u) db.memberships,
      );
      invites_assignable = v.invites_assignable;
    };
    owners_same = λ o. ground (
      arith,
      count_where-delete_one (member_of org user) (owner_row o) db.memberships {m = m}
          (v.members_unique org user) h,
    );
  }

  unique-append :
      (now id org user : ℕ) (role : String) (o u : ℕ)
      → any_where (member_of org user) db.memberships ≡ false
      → count_where (member_of o u) (db.memberships ++ new_membership now id org user role ∷ []) ≤ 1
  unique-append now id org user role o u h = elim (Bool-cases (org == o && user == u)) [
    | inl e ↦
        let o_same : org ≡ o = ground arith in
        let u_same : user ≡ u = ground arith in
        let absent : any_where (member_of o u) db.memberships ≡ false =
          subst (λ p. any_where (member_of p u) db.memberships ≡ false) o_same
            (subst (λ q. any_where (member_of org q) db.memberships ≡ false) u_same h) in
        ground (
          arith,
          count_where_of_absent (member_of o u) db.memberships absent,
          count_where-append (member_of o u) db.memberships
              (new_membership now id org user role ∷ []),
        )
    | inr e ↦ ground (
      arith,
      v.members_unique o u,
      count_where-append (member_of o u) db.memberships (new_membership now id org user role ∷ []),
    )
  ]

  pub owners-create_org_membership :
      (now id org user : ℕ) (role : String) (d : OrgDb)
      → create_org_membership now id org user role db ≡ some d
      → IsValid d
        × ((o : ℕ)
            → owners o d ≡ owners o db + bit (owner_row o (new_membership now id org user role)))
  unfolding create_org_membership
  owners-create_org_membership now id org user role d h =
      elim (Bool-cases (any_where (has_org_id org) db.organizations)) [
        | inr e ↦ absurd (ground arith)
        | inl there ↦ elim (Bool-cases (any_where (member_of org user) db.memberships)) [
          | inl e ↦ absurd (ground arith)
          | inr fresh ↦
              let rows : d.memberships
                  ≡ db.memberships ++ new_membership now id org user role ∷ [] =
                ground arith in
              let invs : d.invites ≡ db.invites = ground arith in
              (
                record {
                  members_unique = λ o u. rw rows (unique-append now id org user role o u fresh);
                  invites_assignable = rw invs v.invites_assignable;
                },
                λ o. rw rows (
                    ground (
                      arith,
                      count_where-append (owner_row o) db.memberships
                          (new_membership now id org user role ∷ []),
                    )),
              )
        ]
      ]
