-- ===== src/Orgs/Untouched.antt =====
-- The statements that leave the memberships as they are keep the owners.
use zagforge_mvp.Prelude.{
  sym, ℕ, String, ◌≡◌, refl, Bool, true, ◌&&◌, Option, some, List, [], ◌∷◌, ◌++◌, arith, find,
  update_where, any_where, All, All-update_where, All-append_one, Bool-cases, inl, inr,
}
use zagforge_mvp.Orgs.Model.{Invite, AuditLog, OrgDb, Faults, create_audit_log as insert_log}
use zagforge_mvp.Orgs.Queries.{
  has_invite_id, is_open, has_token, new_invite, accepted_now, revoked_now, revocable,
  update_organization, accept_invite, revoke_invite, create_invite, create_audit_log, org_exists,
  get_invite_by_token_hash,
}
use zagforge_mvp.Orgs.Access.{assignable, logged, or_same}
use zagforge_mvp.Orgs.Owners.{IsValid, Keeps, Keeps-refl, Keeps-trans, Keeps-same}

find_All :
    (P : Invite → Type 0) (p : Invite → Bool) (xs : List Invite) {i : Invite}
    → All P xs
    → find p xs ≡ some i
    → P i
find_All P p [] a h = absurd (ground arith)
find_All P p (x ∷ xs) {i} a h = elim (Bool-cases (p x)) [
  | inl e ↦ let same : x ≡ i = ground arith in rw (sym same) a.0
  | inr e ↦ find_All P p xs {i = i} a.1 (ground arith)
]

module _ {db : OrgDb} (v : IsValid db) where
  -- the role of an invite that is found
  pub found_assignable :
      (now : ℕ) (hash : String) {i : Invite}
      → get_invite_by_token_hash now hash db ≡ some i
      → assignable i.role ≡ true
  unfolding get_invite_by_token_hash
  found_assignable now hash h =
      find_All (λ i. assignable i.role ≡ true) (λ i. has_token hash i && is_open now i) db.invites
        v.invites_assignable h

  pub Keeps-update_organization :
      (now org : ℕ) (name : String) (logo email : Option String)
      → Keeps db (update_organization now org name logo email db)
  unfolding update_organization
  Keeps-update_organization now org name logo email =
      Keeps-same db (update_organization now org name logo email db) v refl v.invites_assignable

  pub Keeps-revoke_invite : (id org : ℕ) → Keeps db (revoke_invite id org db)
  unfolding revoke_invite
  Keeps-revoke_invite id org = Keeps-same db (revoke_invite id org db) v refl (
      All-update_where _ (revocable id org) revoked_now db.invites (λ x _ a. a)
        v.invites_assignable)

  pub Keeps-accept_invite : (now id : ℕ) (d : OrgDb) → accept_invite now id db ≡ some d → Keeps db d
  unfolding accept_invite
  Keeps-accept_invite now id d h =
      elim (Bool-cases (any_where (λ i. has_invite_id id i && is_open now i) db.invites)) [
        | inr e ↦ absurd (ground arith)
        | inl e ↦
            let invs : d.invites
                ≡ update_where (λ i. has_invite_id id i && is_open now i) (accepted_now now)
                    db.invites =
              ground arith in
            Keeps-same db d v (ground arith) (
              rw invs (
                All-update_where _ (λ i. has_invite_id id i && is_open now i) (accepted_now now)
                  db.invites (λ x _ a. a) v.invites_assignable))
      ]

  pub Keeps-create_invite :
      (now id org by : ℕ) (email role hash : String) (expires : ℕ) (d : OrgDb)
      → assignable role ≡ true
      → create_invite now id org by email role hash expires db ≡ some d
      → Keeps db d
  unfolding create_invite
  Keeps-create_invite now id org by email role hash expires d a h =
      let row = new_invite now id org by email role hash expires in
      let parts : (d.memberships ≡ db.memberships) × (d.invites ≡ db.invites ++ row ∷ []) =
        ground arith in
      Keeps-same db d v parts.0
        (rw parts.1 (All-append_one _ db.invites row v.invites_assignable a))

  or_same-audit : (a : AuditLog) → Keeps db (or_same db (create_audit_log a db))
  unfolding create_audit_log
  or_same-audit a = elim (Bool-cases (org_exists a.org_id db)) [
    | inl e ↦ rw e (Keeps-same db _ v refl v.invites_assignable)
    | inr e ↦ rw e (Keeps-refl v)
  ]

-- after any statement, the audit entry
pub Keeps-logged :
    (fails : Faults) (a : AuditLog) {db d : OrgDb} → Keeps db d → Keeps db (logged fails a d)
unfolding logged
Keeps-logged fails a {db} {d} k = elim (Bool-cases (fails insert_log)) [
  | inl e ↦ rw e k
  | inr e ↦ rw e (Keeps-trans k (or_same-audit k.valid a))
]

or_same-memberships :
    (a : AuditLog) (db : OrgDb) → (or_same db (create_audit_log a db)).memberships ≡ db.memberships
unfolding create_audit_log
or_same-memberships a db = elim (Bool-cases (org_exists a.org_id db)) [
  | inl e ↦ rw e refl
  | inr e ↦ rw e refl
]

pub logged-memberships :
    (fails : Faults) (a : AuditLog) (db : OrgDb) → (logged fails a db).memberships ≡ db.memberships
unfolding logged
logged-memberships fails a db = elim (Bool-cases (fails insert_log)) [
  | inl e ↦ rw e refl
  | inr e ↦ rw e (or_same-memberships a db)
]

or_same-invites :
    (a : AuditLog) (db : OrgDb) → (or_same db (create_audit_log a db)).invites ≡ db.invites
unfolding create_audit_log
or_same-invites a db = elim (Bool-cases (org_exists a.org_id db)) [
  | inl e ↦ rw e refl
  | inr e ↦ rw e refl
]

pub logged-invites :
    (fails : Faults) (a : AuditLog) (db : OrgDb) → (logged fails a db).invites ≡ db.invites
unfolding logged
logged-invites fails a db = elim (Bool-cases (fails insert_log)) [
  | inl e ↦ rw e refl
  | inr e ↦ rw e (or_same-invites a db)
]
