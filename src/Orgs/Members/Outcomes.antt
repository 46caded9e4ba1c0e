-- ===== src/Orgs/Members/Outcomes.antt =====
-- How each member handler ends.
use zagforge_mvp.Prelude.{ℕ, ◌≤◌, String, ◌≡◌, refl, true, false, Option, some, arith}
use zagforge_mvp.Prelude.Outcome.{
  Ensures, Ensures-pure, Ensures-stop_if, Ensures-stop_unless, Ensures-get, Ensures-modify,
  Ensures-require, Ensures-check, run_meets,
}
use zagforge_mvp.Orgs.Model.{OrgMembership, OrgDb, org_owner, org_admin}
use zagforge_mvp.Orgs.Queries.{update_org_member_role, delete_org_membership}
use zagforge_mvp.Orgs.Access.{
  Err, internal, invalid_user_id, invalid_body, validation, cannot_remove_owner, member_not_found,
  Reply, refuse, ok, OrgEnv, assignable, is_owner, logged,
}
use zagforge_mvp.Orgs.Access.Rules.{
  Checked, Found, MemberWith, IsAdmin, IsOwner, as_admin, as_owner,
}
use zagforge_mvp.Orgs.Members.{
  role_valid, role_metadata, on_user, require_other, update_role_steps, update_member_role,
  remove_steps, remove_member, hand_over, transfer_steps, transfer_ownership,
}

abbrev pub IsPlain : OrgMembership → Type 0
IsPlain m = is_owner m ≡ false

abbrev pub AnyRole : OrgMembership → Type 0
AnyRole m = Unit

pub data RoleOutcome (env : OrgEnv) (claims org_param target_param : Option ℕ)
    (body : Option String) (db : OrgDb) : Reply → OrgDb → Type 0 where
  role_refused :
      (code : ℕ) (e : Err)
      → 400 ≤ code
      → RoleOutcome env claims org_param target_param body db (refuse code e) db
  role_updated :
      (org actor target : ℕ) (role : String)
      → (claims ≡ some actor) × (org_param ≡ some org) × (target_param ≡ some target)
      → body ≡ some role
      → MemberWith IsAdmin org actor db
      → MemberWith IsPlain org target db
      → assignable role ≡ true
      → RoleOutcome env claims org_param target_param body db (ok "updated") (
          logged env.fails
            (on_user org actor target "org.member.role_changed" (role_metadata role))
            (update_org_member_role env.now org target role db))

pub data RemoveOutcome (env : OrgEnv) (claims org_param target_param : Option ℕ) (db : OrgDb)
    : Reply → OrgDb → Type 0 where
  remove_refused :
      (code : ℕ) (e : Err)
      → 400 ≤ code
      → RemoveOutcome env claims org_param target_param db (refuse code e) db
  removed :
      (org actor target : ℕ)
      → (claims ≡ some actor) × (org_param ≡ some org) × (target_param ≡ some target)
      → MemberWith IsAdmin org actor db
      → MemberWith IsPlain org target db
      → RemoveOutcome env claims org_param target_param db (ok "removed") (
          logged env.fails
            (on_user org actor target "org.member.removed" "{}")
            (delete_org_membership org target db))

-- the parts of an accepted transfer
abbrev pub Accepted : OrgEnv → Option ℕ → Option ℕ → Option String → ℕ → ℕ → ℕ → Type 0
Accepted env claims org_param body org actor new_owner =
    (claims ≡ some actor)
    × (org_param ≡ some org)
    × ((text : String) × (body ≡ some text) × (env.scan_uuid text ≡ some new_owner))

abbrev pub both_roles : OrgEnv → ℕ → ℕ → ℕ → OrgDb → OrgDb
both_roles env org actor new_owner db =
    update_org_member_role env.now org actor org_admin
      (update_org_member_role env.now org new_owner org_owner db)

pub data TransferOutcome (env : OrgEnv) (claims org_param : Option ℕ) (body : Option String)
    (db : OrgDb) : Reply → OrgDb → Type 0 where
  transfer_refused :
      (code : ℕ) (e : Err)
      → 400 ≤ code
      → TransferOutcome env claims org_param body db (refuse code e) db
  half_transferred :
      (org actor new_owner : ℕ)
      → Accepted env claims org_param body org actor new_owner
      → MemberWith IsOwner org actor db
      → MemberWith AnyRole org new_owner db
      → TransferOutcome env claims org_param body db
          (refuse 500 internal)
          (update_org_member_role env.now org new_owner org_owner db)
  transferred :
      (org actor new_owner : ℕ)
      → Accepted env claims org_param body org actor new_owner
      → MemberWith IsOwner org actor db
      → MemberWith AnyRole org new_owner db
      → TransferOutcome env claims org_param body db (ok "transferred") (
          logged env.fails
            (on_user org actor new_owner "org.owner.transferred" "{}")
            (both_roles env org actor new_owner db))

valid_assignable : (role : String) → role_valid role ≡ true → assignable role ≡ true
valid_assignable role h = ground arith

module _ (env : OrgEnv) (db : OrgDb) where
  require_other-Ensures :
      {E : Reply → OrgDb → Type 0} (org target : ℕ)
      → E (refuse 404 member_not_found) db
      → E (refuse 403 cannot_remove_owner) db
      → Ensures (Checked IsPlain org target db) E (require_other env org target) db
  unfolding require_other
  require_other-Ensures org target missing owner =
      Ensures-stop_if _ _ _ _ (λ _. missing)
        (λ _. Ensures-get _ _ (
          Ensures-require _ _ _ _ (λ _. missing)
            (λ m found.
              Ensures-stop_if _ _ _ _ (λ _. owner)
                (λ plain. Ensures-pure _ _ (refl, (found, plain))))))

  pub update_member_role-outcome :
      (claims org_param target_param : Option ℕ) (body : Option String)
      → RoleOutcome env claims org_param target_param body db
          (update_member_role env claims org_param target_param body db).0
          (update_member_role env claims org_param target_param body db).1
  unfolding update_member_role update_role_steps
  update_member_role-outcome claims org_param target_param body =
      run_meets {E = RoleOutcome env claims org_param target_param body db}
        (update_role_steps env claims org_param target_param body) db
        (as_admin db _ role_refused env.fails claims org_param _
          (λ actor org is_actor is_org a (a_found, a_rank).
            (Ensures-require _ _ _ _ (λ _. role_refused 400 invalid_user_id (omega arith))
              (λ target is_target.
                Ensures-require _ _ _ _ (λ _. role_refused 400 invalid_body (omega arith))
                  (λ role is_role.
                    Ensures-stop_unless _ _ _ _ (λ _. role_refused 400 validation (omega arith))
                      (λ valid.
                        Ensures-check (Found IsPlain org target db) _ _ _
                          (require_other-Ensures org target
                            (role_refused 404 member_not_found (omega arith))
                            (role_refused 403 cannot_remove_owner (omega arith)))
                          (λ t (t_found, t_plain).
                            (Ensures-stop_if _ _ _ _ (λ _. role_refused 500 internal (omega arith))
                              (λ _. Ensures-modify _ _ _ (
                                Ensures-modify _ _ _ (
                                  Ensures-pure _ _ (
                                    role_updated org actor target role (is_actor, is_org, is_target)
                                      is_role (a, a_found, a_rank) (t, t_found, t_plain)
                                      (valid_assignable role valid)))))))))))))

  pub remove_member-outcome :
      (claims org_param target_param : Option ℕ)
      → RemoveOutcome env claims org_param target_param db
          (remove_member env claims org_param target_param db).0
          (remove_member env claims org_param target_param db).1
  unfolding remove_member remove_steps
  remove_member-outcome claims org_param target_param =
      run_meets {E = RemoveOutcome env claims org_param target_param db}
        (remove_steps env claims org_param target_param) db
        (as_admin db _ remove_refused env.fails claims org_param _
          (λ actor org is_actor is_org a (a_found, a_rank).
            (Ensures-require _ _ _ _ (λ _. remove_refused 400 invalid_user_id (omega arith))
              (λ target is_target.
                Ensures-check (Found IsPlain org target db) _ _ _
                  (require_other-Ensures org target
                    (remove_refused 404 member_not_found (omega arith))
                    (remove_refused 403 cannot_remove_owner (omega arith)))
                  (λ t (t_found, t_plain).
                    (Ensures-stop_if _ _ _ _ (λ _. remove_refused 500 internal (omega arith))
                      (λ _. Ensures-modify _ _ _ (
                        Ensures-modify _ _ _ (
                          Ensures-pure _ _ (
                            removed org actor target (is_actor, is_org, is_target)
                              (a, a_found, a_rank) (t, t_found, t_plain)))))))))))

  hand_over-Ensures :
      {claims org_param : Option ℕ} {body : Option String} (org actor new_owner : ℕ)
      → Accepted env claims org_param body org actor new_owner
      → MemberWith IsOwner org actor db
      → MemberWith AnyRole org new_owner db
      → Ensures
          (TransferOutcome env claims org_param body db)
          (TransferOutcome env claims org_param body db)
          (hand_over env org actor new_owner)
          db
  unfolding hand_over
  hand_over-Ensures {claims} {org_param} {body} org actor new_owner c a n =
      Ensures-stop_if _ _ _ _ (λ _. transfer_refused 500 internal (omega arith))
        (λ _. Ensures-modify _ _ _ (
          Ensures-stop_if _ _ _ _ (λ _. half_transferred org actor new_owner c a n)
            (λ _.
              Ensures-modify _ _ _
                (Ensures-modify _ _ _ (Ensures-pure _ _ (transferred org actor new_owner c a n))))))

  pub transfer_ownership-outcome :
      (claims org_param : Option ℕ) (body : Option String)
      → TransferOutcome env claims org_param body db
          (transfer_ownership env claims org_param body db).0
          (transfer_ownership env claims org_param body db).1
  unfolding transfer_ownership transfer_steps
  transfer_ownership-outcome claims org_param body =
      run_meets {E = TransferOutcome env claims org_param body db}
        (transfer_steps env claims org_param body) db
        (as_owner db _ transfer_refused env.fails claims org_param _
          (λ actor org is_actor is_org a (a_found, a_rank).
            (Ensures-require _ _ _ _ (λ _. transfer_refused 400 invalid_body (omega arith))
              (λ text is_text.
                Ensures-stop_unless _ _ _ _ (λ _. transfer_refused 400 validation (omega arith))
                  (λ _.
                    Ensures-require _ _ _ _
                      (λ _. transfer_refused 400 invalid_user_id (omega arith))
                      (λ new_owner is_new.
                        Ensures-stop_if _ _ _ _
                          (λ _. transfer_refused 404 member_not_found (omega arith))
                          (λ _. Ensures-get _ _ (
                            Ensures-require _ _ _ _
                              (λ _. transfer_refused 404 member_not_found (omega arith))
                              (λ m found.
                                hand_over-Ensures org actor new_owner
                                  (is_actor, is_org, (text, is_text, is_new)) (a, a_found, a_rank)
                                  (m, found, tt))))))))))
