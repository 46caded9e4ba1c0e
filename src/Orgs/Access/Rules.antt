-- ===== src/Orgs/Access/Rules.antt =====
-- The two role checks through the rules of Prelude.Outcome.
use zagforge_mvp.Prelude.{ℕ, ◌≤◌, ◌≡◌, refl, true, Option, some, arith}
use zagforge_mvp.Prelude.Flow.{Act, ◌>>=◌, ◌>>◌, require}
use zagforge_mvp.Prelude.Outcome.{
  Ensures, Ensures-pure, Ensures-stop_if, Ensures-stop_unless, Ensures-get, Ensures-require,
  Ensures-check,
}
use zagforge_mvp.Orgs.Model.{OrgMembership, OrgDb, Faults}
use zagforge_mvp.Orgs.Queries.{get_org_membership}
use zagforge_mvp.Orgs.Access.{
  Err, invalid_user_id, invalid_org_id, forbidden, not_owner, Reply, refuse, admin_or_above,
  is_owner, require_org_admin_or_owner, require_owner,
}

-- the check went through on the row `m`
abbrev pub Found : (OrgMembership → Type 0) → ℕ → ℕ → OrgDb → OrgMembership → Type 0
Found P org user db m = (get_org_membership org user db ≡ some m) × P m

-- a row of `db` for the user in the organization, of which `P` holds
abbrev pub MemberWith : (OrgMembership → Type 0) → ℕ → ℕ → OrgDb → Type 0
MemberWith P org user db = (m : OrgMembership) × (get_org_membership org user db ≡ some m) × P m

-- the check wrote nothing
abbrev pub Checked : (OrgMembership → Type 0) → ℕ → ℕ → OrgDb → OrgMembership → OrgDb → Type 0
Checked P org user db m d = (d ≡ db) × Found P org user db m

abbrev pub IsAdmin : OrgMembership → Type 0
IsAdmin m = admin_or_above m ≡ true

abbrev pub IsOwner : OrgMembership → Type 0
IsOwner m = is_owner m ≡ true

module _ (fails : Faults) (org user : ℕ) (db : OrgDb) {E : Reply → OrgDb → Type 0} where
  pub require_org_admin_or_owner-Ensures :
      E (refuse 403 forbidden) db
      → Ensures (Checked IsAdmin org user db) E (require_org_admin_or_owner fails org user) db
  unfolding require_org_admin_or_owner
  require_org_admin_or_owner-Ensures denied =
      Ensures-stop_if _ _ _ _ (λ _. denied)
        (λ _. Ensures-get _ _ (
          Ensures-require _ _ _ _ (λ _. denied)
            (λ m found.
              Ensures-stop_unless _ _ _ _ (λ _. denied)
                (λ rank. Ensures-pure _ _ (refl, (found, rank))))))

  pub require_owner-Ensures :
      E (refuse 403 forbidden) db
      → E (refuse 403 not_owner) db
      → Ensures (Checked IsOwner org user db) E (require_owner fails org user) db
  unfolding require_owner
  require_owner-Ensures denied other =
      Ensures-stop_if _ _ _ _ (λ _. denied)
        (λ _. Ensures-get _ _ (
          Ensures-require _ _ _ _ (λ _. denied)
            (λ m found.
              Ensures-stop_unless _ _ _ _ (λ _. other)
                (λ rank. Ensures-pure _ _ (refl, (found, rank))))))

-- The steps that the handlers of an organization begin with; `stopped` is what holds of an answer
-- with an error code.
module _ (db : OrgDb) (E : Reply → OrgDb → Type 0)
    (stopped : (code : ℕ) (e : Err) → 400 ≤ code → E (refuse code e) db) (fails : Faults)
    (claims org_param : Option ℕ) where
  pub as_admin :
      (rest : ℕ → ℕ → Act OrgDb Reply Reply)
      → ((actor org : ℕ)
          → claims ≡ some actor
          → org_param ≡ some org
          → (m : OrgMembership) → Found IsAdmin org actor db m
          → Ensures E E (rest actor org) db)
      → Ensures E E
          (require claims (refuse 401 invalid_user_id) >>= λ actor.
            require org_param (refuse 400 invalid_org_id) >>= λ org.
            require_org_admin_or_owner fails org actor >> rest actor org)
          db
  as_admin rest k =
      Ensures-require _ _ _ _ (λ _. stopped 401 invalid_user_id (omega arith))
        (λ actor is_actor.
          Ensures-require _ _ _ _ (λ _. stopped 400 invalid_org_id (omega arith))
            (λ org is_org.
              Ensures-check (Found IsAdmin org actor db) _ _ _
                (require_org_admin_or_owner-Ensures fails org actor db
                  (stopped 403 forbidden (omega arith)))
                (k actor org is_actor is_org)))

  pub as_owner :
      (rest : ℕ → ℕ → Act OrgDb Reply Reply)
      → ((actor org : ℕ)
          → claims ≡ some actor
          → org_param ≡ some org
          → (m : OrgMembership) → Found IsOwner org actor db m
          → Ensures E E (rest actor org) db)
      → Ensures E E
          (require claims (refuse 401 invalid_user_id) >>= λ actor.
            require org_param (refuse 400 invalid_org_id) >>= λ org.
            require_owner fails org actor >> rest actor org)
          db
  as_owner rest k =
      Ensures-require _ _ _ _ (λ _. stopped 401 invalid_user_id (omega arith))
        (λ actor is_actor.
          Ensures-require _ _ _ _ (λ _. stopped 400 invalid_org_id (omega arith))
            (λ org is_org.
              Ensures-check (Found IsOwner org actor db) _ _ _
                (require_owner-Ensures fails org actor db (stopped 403 forbidden (omega arith))
                  (stopped 403 not_owner (omega arith)))
                (k actor org is_actor is_org)))
