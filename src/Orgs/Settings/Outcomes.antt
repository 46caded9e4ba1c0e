-- ===== src/Orgs/Settings/Outcomes.antt =====
-- How each handler of organizations ends.
use zagforge_mvp.Prelude.{ℕ, ◌≤◌, ◌≡◌, Option, none, some, arith}
use zagforge_mvp.Prelude.Outcome.{
  Ensures-pure, Ensures-stop_if, Ensures-stop_unless, Ensures-get, Ensures-modify, Ensures-require,
  run_meets,
}
use zagforge_mvp.Orgs.Model.{Organization, OrgDb, org_owner}
use zagforge_mvp.Orgs.Queries.{
  get_organization_by_id, new_organization, create_organization, create_org_membership,
  update_organization, delete_organization,
}
use zagforge_mvp.Orgs.Access.{
  Err, internal, invalid_user_id, invalid_body, validation, organization, Reply, refuse, ok, OrgEnv,
  logged,
}
use zagforge_mvp.Orgs.Access.Rules.{MemberWith, IsAdmin, IsOwner, as_admin, as_owner}
use zagforge_mvp.Orgs.Settings.{
  CreateOrgRequest, UpdateOrgRequest, entry, text_or_null, create_steps, create, update_steps,
  update, delete_steps, delete,
}

pub data CreateOutcome (env : OrgEnv) (claims : Option ℕ) (body : Option CreateOrgRequest)
    (db : OrgDb) : Reply → OrgDb → Type 0 where
  create_refused :
      (code : ℕ) (e : Err) → 400 ≤ code → CreateOutcome env claims body db (refuse code e) db
  without_owner :
      (req : CreateOrgRequest) (mid : OrgDb)
      → body ≡ some req
      → create_organization env.now env.new_id req.slug req.name db ≡ some mid
      → CreateOutcome env claims body db (refuse 500 internal) mid
  org_created :
      (user : ℕ) (req : CreateOrgRequest) (mid d : OrgDb)
      → (claims ≡ some user) × (body ≡ some req)
      → create_organization env.now env.new_id req.slug req.name db ≡ some mid
      → create_org_membership env.now env.new_membership_id env.new_id user org_owner mid ≡ some d
      → CreateOutcome env claims body db
          (record {
            code = 201;
            body = organization (new_organization env.now env.new_id req.slug req.name);
          })
          (logged env.fails (entry env.new_id user "org.created") d)

-- the table after the details were written
abbrev pub detailed : OrgEnv → ℕ → UpdateOrgRequest → OrgDb → OrgDb
detailed env org req db =
    update_organization env.now org req.name (text_or_null req.logo_url)
      (text_or_null req.billing_email) db

pub data UpdateOutcome (env : OrgEnv) (claims org_param : Option ℕ) (body : Option UpdateOrgRequest)
    (db : OrgDb) : Reply → OrgDb → Type 0 where
  update_refused :
      (code : ℕ) (e : Err)
      → 400 ≤ code
      → UpdateOutcome env claims org_param body db (refuse code e) db
  no_row :
      (actor org : ℕ) (req : UpdateOrgRequest)
      → (claims ≡ some actor) × (org_param ≡ some org) × (body ≡ some req)
      → MemberWith IsAdmin org actor db
      → get_organization_by_id org (detailed env org req db) ≡ none
      → UpdateOutcome env claims org_param body db (refuse 500 internal) (detailed env org req db)
  org_updated :
      (actor org : ℕ) (req : UpdateOrgRequest) (row : Organization)
      → (claims ≡ some actor) × (org_param ≡ some org) × (body ≡ some req)
      → MemberWith IsAdmin org actor db
      → get_organization_by_id org (detailed env org req db) ≡ some row
      → UpdateOutcome env claims org_param body db
          (record { code = 200; body = organization row })
          (logged env.fails (entry org actor "org.updated") (detailed env org req db))

pub data DeleteOutcome (env : OrgEnv) (claims org_param : Option ℕ) (db : OrgDb)
    : Reply → OrgDb → Type 0 where
  delete_refused :
      (code : ℕ) (e : Err) → 400 ≤ code → DeleteOutcome env claims org_param db (refuse code e) db
  org_deleted :
      (actor org : ℕ)
      → (claims ≡ some actor) × (org_param ≡ some org)
      → MemberWith IsOwner org actor db
      → DeleteOutcome env claims org_param db
          (ok "deleted")
          (logged env.fails (entry org actor "org.deleted") (delete_organization org db))

module _ (env : OrgEnv) (db : OrgDb) where
  pub create-outcome :
      (claims : Option ℕ) (body : Option CreateOrgRequest)
      → CreateOutcome env claims body db (create env claims body db).0 (create env claims body db).1
  unfolding create create_steps
  create-outcome claims body =
      run_meets {E = CreateOutcome env claims body db} (create_steps env claims body) db (
        Ensures-require _ _ _ _ (λ _. create_refused 401 invalid_user_id (omega arith))
          (λ user is_user.
            Ensures-require _ _ _ _ (λ _. create_refused 400 invalid_body (omega arith))
              (λ req is_req.
                Ensures-stop_unless _ _ _ _ (λ _. create_refused 400 validation (omega arith))
                  (λ _.
                    Ensures-stop_if _ _ _ _ (λ _. create_refused 500 internal (omega arith))
                      (λ _. Ensures-get _ _ (
                        Ensures-require _ _ _ _ (λ _. create_refused 500 internal (omega arith))
                          (λ mid made. Ensures-modify _ _ _ (
                            Ensures-stop_if _ _ _ _ (λ _. without_owner req mid is_req made)
                              (λ _.
                                Ensures-require _ _ _ _ (λ _. without_owner req mid is_req made)
                                  (λ d joined. Ensures-modify _ _ _ (
                                    Ensures-modify _ _ _ (
                                      Ensures-pure _ _ (
                                        org_created user req mid d (is_user, is_req) made
                                          joined)))))))))))))

  pub update-outcome :
      (claims org_param : Option ℕ) (body : Option UpdateOrgRequest)
      → UpdateOutcome env claims org_param body db
          (update env claims org_param body db).0
          (update env claims org_param body db).1
  unfolding update update_steps
  update-outcome claims org_param body =
      run_meets {E = UpdateOutcome env claims org_param body db}
        (update_steps env claims org_param body) db
        (as_admin db _ update_refused env.fails claims org_param _
          (λ actor org is_actor is_org a rank.
            Ensures-require _ _ _ _ (λ _. update_refused 400 invalid_body (omega arith))
              (λ req is_req.
                Ensures-stop_unless _ _ _ _ (λ _. update_refused 400 validation (omega arith))
                  (λ _.
                    Ensures-stop_if _ _ _ _ (λ _. update_refused 500 internal (omega arith))
                      (λ _. Ensures-modify _ _ _ (
                        Ensures-get _ _ (
                          Ensures-require _ _ _ _
                            (λ gone.
                              no_row actor org req (is_actor, is_org, is_req) (a, rank.0, rank.1)
                                gone)
                            (λ row found. Ensures-modify _ _ _ (
                              Ensures-pure _ _ (
                                org_updated actor org req row (is_actor, is_org, is_req)
                                  (a, rank.0, rank.1) found))))))))))

  pub delete-outcome :
      (claims org_param : Option ℕ)
      → DeleteOutcome env claims org_param db
          (delete env claims org_param db).0
          (delete env claims org_param db).1
  unfolding delete delete_steps
  delete-outcome claims org_param =
      run_meets {E = DeleteOutcome env claims org_param db} (delete_steps env claims org_param) db (
        as_owner db _ delete_refused env.fails claims org_param _
          (λ actor org is_actor is_org a rank.
            Ensures-stop_if _ _ _ _ (λ _. delete_refused 500 internal (omega arith))
              (λ _. Ensures-modify _ _ _ (
                Ensures-modify _ _ _ (
                  Ensures-pure _ _
                    (org_deleted actor org (is_actor, is_org) (a, rank.0, rank.1)))))))
