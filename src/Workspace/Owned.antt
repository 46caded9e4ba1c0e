-- ===== src/Workspace/Owned.antt =====
-- The owners of an organization, through each statement.
use zagforge_mvp.Prelude.{
  ℕ, ◌≤◌, String, ◌≡◌, ◌≢◌, refl, Bool, true, false, ◌&&◌, not, Option, some, [], ◌∷◌, ◌++◌, List,
  arith, ◌==◌, ==_iff, str_eq, leb, find_sound, delete_where, count_where, any_where,
  count_where-append, count_where-update_one, count_where-update_same, count_where-delete_one,
  count_where-delete_le, count_where_of_absent,
}
use zagforge_mvp.Workspace.Model.{Membership, WorkDb}
use zagforge_mvp.Workspace.Queries.{
  of_user, owner_of, get_membership_row, count_owners_by_org, joined, create_membership_row,
  with_role, update_membership_role, delete_membership_row, delete_organization_row,
}

-- the unique key of memberships holds, and the organization has an owner
pub record Owned (org : ℕ) (db : WorkDb) : Type 0 where
  pub keyed : (user o : ℕ) → count_where (of_user user o) db.memberships ≤ 1
  pub owned : 1 ≤ count_owners_by_org org db

found_row :
    (user org : ℕ) (db : WorkDb) {m : Membership}
    → get_membership_row user org db ≡ some m
    → of_user user org m ≡ true
unfolding get_membership_row
found_row user org db {m} h = find_sound (of_user user org) db.memberships {x = m} h

count_where-delete_other :
    (p q : Membership → Bool) (xs : List Membership)
    → ((m : Membership) → p m ≡ true → q m ≡ false)
    → count_where q (delete_where p xs) ≡ count_where q xs
count_where-delete_other p q [] h = refl
count_where-delete_other p q (x ∷ xs) h = ground (arith, h x, count_where-delete_other p q xs h)

module _ {org : ℕ} {db : WorkDb} (v : Owned org db) where
  -- a write that leaves the memberships alone
  pub Owned-same : (d : WorkDb) → d.memberships ≡ db.memberships → Owned org d
  unfolding count_owners_by_org
  Owned-same d e = record { keyed = λ u o. rw e (v.keyed u o); owned = rw e v.owned }

  pub Owned-create_membership_row :
      (now id user o : ℕ) (role : String) (inviter : Option ℕ) (d : WorkDb)
      → create_membership_row now id user o role inviter db ≡ some d
      → Owned org d
  unfolding create_membership_row count_owners_by_org
  Owned-create_membership_row now id user o role inviter d made =
      let row = joined now id user o role inviter in
      let absent : any_where (of_user user o) db.memberships ≡ false = ground arith in
      let rows : d.memberships ≡ db.memberships ++ row ∷ [] = ground arith in
      record {
        keyed = λ u w. rw rows (
            ground (
              arith,
              v.keyed u w,
              count_where-append (of_user u w) db.memberships (row ∷ []),
              count_where_of_absent (of_user user o) db.memberships absent,
              ==_iff user u,
              ==_iff o w,
            ));
        owned =
            rw rows (
              ground (arith, v.owned, count_where-append (owner_of org) db.memberships (row ∷ [])));
      }

  pub Owned-update_membership_role :
      (user o : ℕ) (role : String) {m : Membership}
      → get_membership_row user o db ≡ some m
      → ((str_eq m.role "owner" && not (str_eq role "owner")) && leb (count_owners_by_org o db) 1)
        ≡ false
      → Owned org (update_membership_role user o role db)
  unfolding update_membership_role count_owners_by_org get_membership_row
  Owned-update_membership_role user o role {m} found more = record {
    keyed = λ u w. ground (
      arith,
      v.keyed u w,
      count_where-update_same (of_user user o) (of_user u w) (with_role role) db.memberships
          (λ x. refl),
    );
    owned = ground (
      arith,
      v.owned,
      count_where-update_one (of_user user o) (owner_of org) (with_role role) db.memberships {m = m}
          (v.keyed user o) found,
      found_row user o db {m = m} found,
      ==_iff m.org_id o,
      ==_iff m.org_id org,
    );
  }

  pub Owned-delete_membership_row :
      (user o : ℕ) {m : Membership}
      → get_membership_row user o db ≡ some m
      → (str_eq m.role "owner" && leb (count_owners_by_org o db) 1) ≡ false
      → Owned org (delete_membership_row user o db)
  unfolding delete_membership_row count_owners_by_org get_membership_row
  Owned-delete_membership_row user o {m} found more = record {
    keyed = λ u w.
        omega
          (arith, v.keyed u w, count_where-delete_le (of_user user o) (of_user u w) db.memberships);
    owned = ground (
      arith,
      v.owned,
      count_where-delete_one (of_user user o) (owner_of org) db.memberships {m = m} (v.keyed user o)
          found,
      found_row user o db {m = m} found,
      ==_iff m.org_id o,
      ==_iff m.org_id org,
    );
  }

  pub Owned-delete_organization_row : (o : ℕ) → o ≢ org → Owned org (delete_organization_row o db)
  unfolding delete_organization_row count_owners_by_org
  Owned-delete_organization_row o other = record {
    keyed = λ u w. omega (
      arith,
      v.keyed u w,
      count_where-delete_le (λ m. m.org_id == o) (of_user u w) db.memberships,
    );
    owned = omega (
      arith,
      v.owned,
      count_where-delete_other (λ m. m.org_id == o) (owner_of org) db.memberships
          (λ m h. ground (arith, ==_iff m.org_id o, ==_iff m.org_id org)),
    );
  }
