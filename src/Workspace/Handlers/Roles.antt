-- ===== src/Workspace/Handlers/Roles.antt =====
-- How UpdateMemberRole and RemoveMember end.
use zagforge_mvp.Prelude.{
  ℕ, ◌≤◌, String, ◌≡◌, true, false, ◌&&◌, ◌||◌, not, Option, none, some, arith, leb, str_eq,
}
use zagforge_mvp.Prelude.Outcome.{
  Ensures-pure, Ensures-stop_if, Ensures-stop_unless, Ensures-get, Ensures-require, Ensures-modify,
  Ensures-check, run_meets,
}
use zagforge_mvp.Workspace.Model.{Membership, WorkDb}
use zagforge_mvp.Workspace.Queries.{
  get_membership_row, count_owners_by_org, with_role, update_membership_role, delete_membership_row,
}
use zagforge_mvp.Workspace.Handlers.{
  WorkErr, internal, forbidden, invalid_body, validation, invalid_param, user_not_found, last_owner,
  cannot_demote, WorkReply, failed, no_content, role_updated, WorkEnv, role_request_valid, is_admin,
  owns_org, owner_or_admin, audit, update_role_steps, update_member_role, remove_steps,
  remove_member,
}
use zagforge_mvp.Workspace.Handlers.Checks.{RowOf, require_role-Ensures, keep_an_owner-Ensures}

-- what a change of role went through
pub record RoleChange (env : WorkEnv) (caller : ℕ) (db : WorkDb) (org user : ℕ) (role : String)
    (target : Membership) : Type 0 where
  pub mine : Membership
  pub allowed : RowOf owner_or_admin caller org db mine
  pub valid : role_request_valid role ≡ true
  pub found : get_membership_row user org db ≡ some target
  pub within_rank : (is_admin mine && (owns_org target || str_eq role "owner")) ≡ false
  pub not_last :
      ((owns_org target && not (str_eq role "owner")) && leb (count_owners_by_org org db) 1) ≡ false

pub data RoleOutcome (env : WorkEnv) (caller : ℕ) (org_param user_param : Option ℕ)
    (body : Option String) (db : WorkDb) : WorkReply → WorkDb → Type 0 where
  role_refused :
      (code : ℕ) (e : WorkErr)
      → 400 ≤ code
      → RoleOutcome env caller org_param user_param body db (failed code e) db
  role_changed :
      (org user : ℕ) (role : String) (target : Membership)
      → (org_param ≡ some org) × (user_param ≡ some user) × (body ≡ some role)
      → RoleChange env caller db org user role target
      → RoleOutcome env caller org_param user_param body db (role_updated (with_role role target)) (
          audit env caller none org "member.role_changed" user
            (update_membership_role user org role db))

-- what a removal went through
pub record Removal (env : WorkEnv) (caller : ℕ) (db : WorkDb) (org user : ℕ) : Type 0 where
  pub mine : Membership
  pub target : Membership
  pub allowed : RowOf owner_or_admin caller org db mine
  pub found : get_membership_row user org db ≡ some target
  pub not_last : (owns_org target && leb (count_owners_by_org org db) 1) ≡ false

pub data RemoveOutcome (env : WorkEnv) (caller : ℕ) (org_param user_param : Option ℕ) (db : WorkDb)
    : WorkReply → WorkDb → Type 0 where
  remove_refused :
      (code : ℕ) (e : WorkErr)
      → 400 ≤ code
      → RemoveOutcome env caller org_param user_param db (failed code e) db
  removed :
      (org user : ℕ)
      → (org_param ≡ some org) × (user_param ≡ some user)
      → Removal env caller db org user
      → RemoveOutcome env caller org_param user_param db no_content
          (audit env caller none org "member.removed" user (delete_membership_row user org db))

module _ (env : WorkEnv) (caller : ℕ) (db : WorkDb) where
  pub update_member_role-outcome :
      (org_param user_param : Option ℕ) (body : Option String)
      → RoleOutcome env caller org_param user_param body db
          (update_member_role env caller org_param user_param body db).0
          (update_member_role env caller org_param user_param body db).1
  unfolding update_member_role update_role_steps
  update_member_role-outcome org_param user_param body =
      run_meets {E = RoleOutcome env caller org_param user_param body db}
        (update_role_steps env caller org_param user_param body) db
        (Ensures-require _ _ _ _ (λ _. role_refused 400 invalid_param (omega arith))
          (λ org is_org.
            Ensures-require _ _ _ _ (λ _. role_refused 400 invalid_param (omega arith))
              (λ user is_user.
                Ensures-check (RowOf owner_or_admin caller org db) _ _ _
                  (require_role-Ensures env caller org db owner_or_admin
                    (role_refused 403 forbidden (omega arith)))
                  (λ mine allowed.
                    Ensures-require _ _ _ _ (λ _. role_refused 400 invalid_body (omega arith))
                      (λ role is_role.
                        Ensures-stop_unless _ _ _ _ (λ _. role_refused 400 validation (omega arith))
                          (λ valid.
                            Ensures-stop_if _ _ _ _
                              (λ _. role_refused 404 user_not_found (omega arith))
                              (λ _. Ensures-get _ _ (
                                Ensures-require _ _ _ _
                                  (λ _. role_refused 404 user_not_found (omega arith))
                                  (λ target found.
                                    Ensures-stop_if _ _ _ _
                                      (λ _. role_refused 403 cannot_demote (omega arith))
                                      (λ within.
                                        Ensures-check _ _ _ _
                                          (keep_an_owner-Ensures env caller org db _
                                            (role_refused 500 internal (omega arith))
                                            (role_refused 409 last_owner (omega arith)))
                                          (λ _ more.
                                            Ensures-stop_if _ _ _ _
                                              (λ _. role_refused 500 internal (omega arith))
                                              (λ _. Ensures-modify _ _ _ (
                                                Ensures-modify _ _ _ (
                                                  Ensures-pure _ _ (
                                                    role_changed org user role target
                                                      (is_org, is_user, is_role)
                                                      (record {
                                                        mine = mine;
                                                        allowed = allowed;
                                                        valid = valid;
                                                        found = found;
                                                        within_rank = within;
                                                        not_last = more;
                                                      }))))))))))))))))

  pub remove_member-outcome :
      (org_param user_param : Option ℕ)
      → RemoveOutcome env caller org_param user_param db
          (remove_member env caller org_param user_param db).0
          (remove_member env caller org_param user_param db).1
  unfolding remove_member remove_steps
  remove_member-outcome org_param user_param =
      run_meets {E = RemoveOutcome env caller org_param user_param db}
        (remove_steps env caller org_param user_param) db
        (Ensures-require _ _ _ _ (λ _. remove_refused 400 invalid_param (omega arith))
          (λ org is_org.
            Ensures-require _ _ _ _ (λ _. remove_refused 400 invalid_param (omega arith))
              (λ user is_user.
                Ensures-check (RowOf owner_or_admin caller org db) _ _ _
                  (require_role-Ensures env caller org db owner_or_admin
                    (remove_refused 403 forbidden (omega arith)))
                  (λ mine allowed.
                    Ensures-stop_if _ _ _ _ (λ _. remove_refused 404 user_not_found (omega arith))
                      (λ _. Ensures-get _ _ (
                        Ensures-require _ _ _ _
                          (λ _. remove_refused 404 user_not_found (omega arith))
                          (λ target found.
                            Ensures-check _ _ _ _
                              (keep_an_owner-Ensures env caller org db _
                                (remove_refused 500 internal (omega arith))
                                (remove_refused 409 last_owner (omega arith)))
                              (λ _ more.
                                Ensures-stop_if _ _ _ _
                                  (λ _. remove_refused 500 internal (omega arith))
                                  (λ _. Ensures-modify _ _ _ (
                                    Ensures-modify _ _ _ (
                                      Ensures-pure _ _ (
                                        removed org user (is_org, is_user)
                                          (record {
                                            mine = mine;
                                            target = target;
                                            allowed = allowed;
                                            found = found;
                                            not_last = more;
                                          })))))))))))))
