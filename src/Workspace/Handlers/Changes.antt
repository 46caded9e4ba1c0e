-- ===== src/Workspace/Handlers/Changes.antt =====
-- How CreateOrg, UpdateOrg, DeleteOrg and InviteMember end.
use Prim.Native.String.{◌++◌}
use zagforge_mvp.Prelude.{ℕ, ◌≤◌, ◌≡◌, Option, none, some, arith}
use zagforge_mvp.Prelude.Outcome.{
  Ensures-pure, Ensures-stop_if, Ensures-stop_unless, Ensures-get, Ensures-require, Ensures-modify,
  Ensures-check, run_meets,
}
use zagforge_mvp.Workspace.Model.{User, Organization, Membership, WorkDb}
use zagforge_mvp.Workspace.Queries.{
  joined, create_membership_row, upsert_organization, update_organization_row,
  delete_organization_row, get_user_by_email_row,
}
use zagforge_mvp.Workspace.Handlers.{
  WorkErr, internal, forbidden, invalid_body, validation, invalid_param, org_not_found,
  already_member, user_not_found, WorkReply, failed, org_created, org_updated, no_content,
  member_invited, WorkEnv, OrgRequest, InviteRequest, only_owner, owner_or_admin, audit,
  create_org_steps, create_org, update_org_steps, update_org, delete_org_steps, delete_org,
  invited_role, invite_steps, invite_member,
}
use zagforge_mvp.Workspace.Handlers.Checks.{RowOf, require_role-Ensures}

-- the upsert for a request
abbrev pub Upserted : WorkEnv → WorkDb → OrgRequest → Organization → WorkDb → Type 0
Upserted env db b org mid =
    upsert_organization env.now env.new_org_id ("local_" ++ b.slug) b.slug b.name db
    ≡ some (org, mid)

pub data CreateOutcome (env : WorkEnv) (caller : ℕ) (body : Option OrgRequest) (db : WorkDb)
    : WorkReply → WorkDb → Type 0 where
  create_refused :
      (code : ℕ) (e : WorkErr) → 400 ≤ code → CreateOutcome env caller body db (failed code e) db
  only_upserted :
      (b : OrgRequest) (org : Organization) (mid : WorkDb)
      → body ≡ some b
      → Upserted env db b org mid
      → CreateOutcome env caller body db (failed 500 internal) mid
  org_made :
      (b : OrgRequest) (org : Organization) (mid d : WorkDb)
      → body ≡ some b
      → Upserted env db b org mid
      → create_membership_row env.now env.new_membership_id caller org.id "owner" none mid ≡ some d
      → CreateOutcome env caller body db
          (org_created org)
          (audit env caller (some caller) org.id "org.created" org.id d)

pub data UpdateOutcome (env : WorkEnv) (caller : ℕ) (org_param : Option ℕ) (db : WorkDb)
    : WorkReply → WorkDb → Type 0 where
  update_refused :
      (code : ℕ) (e : WorkErr)
      → 400 ≤ code
      → UpdateOutcome env caller org_param db (failed code e) db
  org_changed :
      (org : ℕ) (m : Membership) (b : OrgRequest) (d : WorkDb)
      → org_param ≡ some org
      → RowOf owner_or_admin caller org db m
      → update_organization_row org b.name b.slug db ≡ some d
      → UpdateOutcome env caller org_param db org_updated
          (audit env caller none org "org.updated" org d)

pub data DeleteOutcome (env : WorkEnv) (caller : ℕ) (org_param : Option ℕ) (db : WorkDb)
    : WorkReply → WorkDb → Type 0 where
  delete_refused :
      (code : ℕ) (e : WorkErr)
      → 400 ≤ code
      → DeleteOutcome env caller org_param db (failed code e) db
  org_deleted :
      (org : ℕ) (m : Membership)
      → org_param ≡ some org
      → RowOf only_owner caller org db m
      → DeleteOutcome env caller org_param db no_content (delete_organization_row org db)

pub data InviteOutcome (env : WorkEnv) (caller : ℕ) (org_param : Option ℕ)
    (body : Option InviteRequest) (db : WorkDb) : WorkReply → WorkDb → Type 0 where
  invite_refused :
      (code : ℕ) (e : WorkErr)
      → 400 ≤ code
      → InviteOutcome env caller org_param body db (failed code e) db
  invited :
      (org : ℕ) (m : Membership) (b : InviteRequest) (u : User) (d : WorkDb)
      → (org_param ≡ some org) × (body ≡ some b)
      → RowOf owner_or_admin caller org db m
      → get_user_by_email_row b.email db ≡ some u
      → create_membership_row env.now env.new_membership_id u.id org
          (invited_role env caller b.role)
          (some caller)
          db
        ≡ some d
      → InviteOutcome env caller org_param body db
          (member_invited (
            joined env.now env.new_membership_id u.id org
              (invited_role env caller b.role)
              (some caller)))
          (audit env caller none org "member.invited" u.id d)

module _ (env : WorkEnv) (caller : ℕ) (db : WorkDb) where
  pub create_org-outcome :
      (body : Option OrgRequest)
      → CreateOutcome env caller body db
          (create_org env caller body db).0
          (create_org env caller body db).1
  unfolding create_org create_org_steps
  create_org-outcome body =
      run_meets {E = CreateOutcome env caller body db} (create_org_steps env caller body) db (
        Ensures-require _ _ _ _ (λ _. create_refused 400 invalid_body (omega arith))
          (λ b is_body.
            Ensures-stop_unless _ _ _ _ (λ _. create_refused 400 validation (omega arith))
              (λ _.
                Ensures-stop_if _ _ _ _ (λ _. create_refused 500 internal (omega arith))
                  (λ _. Ensures-get _ _ (
                    Ensures-require _ _ _ _ (λ _. create_refused 500 internal (omega arith))
                      (λ (org, mid) made. Ensures-modify _ _ _ (
                        Ensures-stop_if _ _ _ _ (λ _. only_upserted b org mid is_body made)
                          (λ _.
                            Ensures-require _ _ _ _ (λ _. only_upserted b org mid is_body made)
                              (λ d joined. Ensures-modify _ _ _ (
                                Ensures-modify _ _ _ (
                                  Ensures-pure _ _
                                    (org_made b org mid d is_body made joined))))))))))))

  pub update_org-outcome :
      (org_param : Option ℕ) (body : Option OrgRequest)
      → UpdateOutcome env caller org_param db
          (update_org env caller org_param body db).0
          (update_org env caller org_param body db).1
  unfolding update_org update_org_steps
  update_org-outcome org_param body =
      run_meets {E = UpdateOutcome env caller org_param db}
        (update_org_steps env caller org_param body) db
        (Ensures-require _ _ _ _ (λ _. update_refused 400 invalid_param (omega arith))
          (λ org is_org.
            Ensures-check (RowOf owner_or_admin caller org db) _ _ _
              (require_role-Ensures env caller org db owner_or_admin
                (update_refused 403 forbidden (omega arith)))
              (λ m allowed.
                Ensures-require _ _ _ _ (λ _. update_refused 400 invalid_body (omega arith))
                  (λ b _.
                    Ensures-stop_unless _ _ _ _ (λ _. update_refused 400 validation (omega arith))
                      (λ _.
                        Ensures-stop_if _ _ _ _ (λ _. update_refused 500 internal (omega arith))
                          (λ _. Ensures-get _ _ (
                            Ensures-stop_unless _ _ _ _
                              (λ _. update_refused 404 org_not_found (omega arith))
                              (λ _.
                                Ensures-require _ _ _ _
                                  (λ _. update_refused 500 internal (omega arith))
                                  (λ d made. Ensures-modify _ _ _ (
                                    Ensures-modify _ _ _ (
                                      Ensures-pure _ _
                                        (org_changed org m b d is_org allowed made))))))))))))

  pub delete_org-outcome :
      (org_param : Option ℕ)
      → DeleteOutcome env caller org_param db
          (delete_org env caller org_param db).0
          (delete_org env caller org_param db).1
  unfolding delete_org delete_org_steps
  delete_org-outcome org_param =
      run_meets {E = DeleteOutcome env caller org_param db} (delete_org_steps env caller org_param)
        db
        (Ensures-require _ _ _ _ (λ _. delete_refused 400 invalid_param (omega arith))
          (λ org is_org.
            Ensures-check (RowOf only_owner caller org db) _ _ _
              (require_role-Ensures env caller org db only_owner
                (delete_refused 403 forbidden (omega arith)))
              (λ m allowed.
                Ensures-stop_if _ _ _ _ (λ _. delete_refused 500 internal (omega arith))
                  (λ _.
                    Ensures-modify _ _ _ (Ensures-pure _ _ (org_deleted org m is_org allowed))))))

  pub invite_member-outcome :
      (org_param : Option ℕ) (body : Option InviteRequest)
      → InviteOutcome env caller org_param body db
          (invite_member env caller org_param body db).0
          (invite_member env caller org_param body db).1
  unfolding invite_member invite_steps
  invite_member-outcome org_param body =
      run_meets {E = InviteOutcome env caller org_param body db}
        (invite_steps env caller org_param body) db
        (Ensures-require _ _ _ _ (λ _. invite_refused 400 invalid_param (omega arith))
          (λ org is_org.
            Ensures-check (RowOf owner_or_admin caller org db) _ _ _
              (require_role-Ensures env caller org db owner_or_admin
                (invite_refused 403 forbidden (omega arith)))
              (λ m allowed.
                Ensures-require _ _ _ _ (λ _. invite_refused 400 invalid_body (omega arith))
                  (λ b is_body.
                    Ensures-stop_unless _ _ _ _ (λ _. invite_refused 400 validation (omega arith))
                      (λ _.
                        Ensures-stop_if _ _ _ _ (λ _. invite_refused 500 internal (omega arith))
                          (λ _. Ensures-get _ _ (
                            Ensures-require _ _ _ _
                              (λ _. invite_refused 404 user_not_found (omega arith))
                              (λ u found.
                                Ensures-stop_if _ _ _ _
                                  (λ _. invite_refused 409 already_member (omega arith))
                                  (λ _.
                                    Ensures-require _ _ _ _
                                      (λ _. invite_refused 409 already_member (omega arith))
                                      (λ d made. Ensures-modify _ _ _ (
                                        Ensures-modify _ _ _ (
                                          Ensures-pure _ _ (
                                            invited org m b u d (is_org, is_body) allowed found
                                              made)))))))))))))
