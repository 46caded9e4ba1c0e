-- ===== src/Orgs/Invites/Outcomes.antt =====
-- How each invite handler ends.
use zagforge_mvp.Prelude.{
  ℕ, ◌+◌, ◌≤◌, String, ◌≡◌, refl, true, false, Option, some, arith, leℤ, int32,
}
use zagforge_mvp.Prelude.Outcome.{
  Ensures, Ensures-pure, Ensures-stop_if, Ensures-stop_unless, Ensures-get, Ensures-modify,
  Ensures-require, Ensures-check, run_meets,
}
use zagforge_mvp.Orgs.Model.{Organization, Invite, OrgDb}
use zagforge_mvp.Orgs.Queries.{
  get_organization_by_id, count_org_members, create_org_membership, create_invite, new_invite,
  get_invite_by_token_hash, accept_invite, revoke_invite,
}
use zagforge_mvp.Orgs.Access.{
  Err, internal, invalid_user_id, invalid_body, validation, invalid_invite_id, invalid_token,
  max_members_reached, invitation, Reply, refuse, ok, OrgEnv, assignable, logged,
}
use zagforge_mvp.Orgs.Access.Rules.{MemberWith, IsAdmin, as_admin}
use zagforge_mvp.Orgs.Invites.{
  CreateInviteRequest, create_invite_valid, invite_ttl, on_org, check_limit, create_steps, create,
  revoke_steps, revoke, join, accept_steps, accept,
}

-- the organization is there and has room
abbrev pub HasRoom : ℕ → OrgDb → Organization → Type 0
HasRoom id db org =
    (get_organization_by_id id db ≡ some org)
    × (leℤ org.max_members (int32 (count_org_members id db)) ≡ false)

-- the row that a request for an invite writes
abbrev pub invite_row : OrgEnv → ℕ → ℕ → CreateInviteRequest → Invite
invite_row env org actor req =
    new_invite env.now env.new_id org actor req.email req.role (env.hash_token env.random_token)
      (env.now + invite_ttl)

pub data CreateOutcome (env : OrgEnv) (claims org_param : Option ℕ)
    (body : Option CreateInviteRequest) (db : OrgDb) : Reply → OrgDb → Type 0 where
  create_refused :
      (code : ℕ) (e : Err)
      → 400 ≤ code
      → CreateOutcome env claims org_param body db (refuse code e) db
  invite_created :
      (actor org : ℕ) (req : CreateInviteRequest) (o : Organization) (d : OrgDb)
      → (claims ≡ some actor) × (org_param ≡ some org) × (body ≡ some req)
      → MemberWith IsAdmin org actor db
      → assignable req.role ≡ true
      → HasRoom org db o
      → create_invite env.now env.new_id org actor req.email req.role
          (env.hash_token env.random_token)
          (env.now + invite_ttl)
          db
        ≡ some d
      → CreateOutcome env claims org_param body db
          (record { code = 201; body = invitation (invite_row env org actor req) env.random_token })
          (logged env.fails (on_org org actor "invite.created") d)

pub data RevokeOutcome (env : OrgEnv) (claims org_param invite_param : Option ℕ) (db : OrgDb)
    : Reply → OrgDb → Type 0 where
  revoke_refused :
      (code : ℕ) (e : Err)
      → 400 ≤ code
      → RevokeOutcome env claims org_param invite_param db (refuse code e) db
  invite_revoked :
      (actor org id : ℕ)
      → (claims ≡ some actor) × (org_param ≡ some org) × (invite_param ≡ some id)
      → MemberWith IsAdmin org actor db
      → RevokeOutcome env claims org_param invite_param db
          (ok "revoked")
          (logged env.fails (on_org org actor "invite.revoked") (revoke_invite id org db))

pub data AcceptOutcome (env : OrgEnv) (claims : Option ℕ) (body : Option String) (db : OrgDb)
    : Reply → OrgDb → Type 0 where
  accept_refused :
      (code : ℕ) (e : Err) → 400 ≤ code → AcceptOutcome env claims body db (refuse code e) db
  only_consumed :
      (token : String) (inv : Invite) (mid : OrgDb)
      → body ≡ some token
      → get_invite_by_token_hash env.now (env.hash_token token) db ≡ some inv
      → accept_invite env.now inv.id db ≡ some mid
      → AcceptOutcome env claims body db (refuse 500 internal) mid
  invite_accepted :
      (user : ℕ) (token : String) (inv : Invite) (o : Organization) (mid d : OrgDb)
      → (claims ≡ some user) × (body ≡ some token)
      → get_invite_by_token_hash env.now (env.hash_token token) db ≡ some inv
      → HasRoom inv.org_id db o
      → accept_invite env.now inv.id db ≡ some mid
      → create_org_membership env.now env.new_membership_id inv.org_id user inv.role mid ≡ some d
      → AcceptOutcome env claims body db
          (ok "accepted")
          (logged env.fails (on_org inv.org_id user "invite.accepted") d)

invite_assignable :
    (env : OrgEnv) (r : CreateInviteRequest)
    → create_invite_valid env r ≡ true
    → assignable r.role ≡ true
invite_assignable env r h = ground arith

module _ (env : OrgEnv) (db : OrgDb) where
  check_limit-Ensures :
      {E : Reply → OrgDb → Type 0} (id : ℕ)
      → E (refuse 500 internal) db
      → E (refuse 403 max_members_reached) db
      → Ensures (λ o d. (d ≡ db) × HasRoom id db o) E (check_limit env id) db
  unfolding check_limit
  check_limit-Ensures id broken full =
      Ensures-stop_if _ _ _ _ (λ _. broken)
        (λ _. Ensures-get _ _ (
          Ensures-require _ _ _ _ (λ _. broken)
            (λ o found.
              Ensures-stop_if _ _ _ _ (λ _. broken)
                (λ _.
                  Ensures-stop_if _ _ _ _ (λ _. full)
                    (λ room. Ensures-pure _ _ (refl, (found, room)))))))

  pub create-outcome :
      (claims org_param : Option ℕ) (body : Option CreateInviteRequest)
      → CreateOutcome env claims org_param body db
          (create env claims org_param body db).0
          (create env claims org_param body db).1
  unfolding create create_steps
  create-outcome claims org_param body =
      run_meets {E = CreateOutcome env claims org_param body db}
        (create_steps env claims org_param body) db
        (as_admin db _ create_refused env.fails claims org_param _
          (λ actor org is_actor is_org a rank.
            Ensures-require _ _ _ _ (λ _. create_refused 400 invalid_body (omega arith))
              (λ req is_req.
                Ensures-stop_unless _ _ _ _ (λ _. create_refused 400 validation (omega arith))
                  (λ valid.
                    Ensures-check (HasRoom org db) _ _ _
                      (check_limit-Ensures org (create_refused 500 internal (omega arith))
                        (create_refused 403 max_members_reached (omega arith)))
                      (λ o room.
                        Ensures-stop_if _ _ _ _ (λ _. create_refused 500 internal (omega arith))
                          (λ _.
                            Ensures-stop_if _ _ _ _ (λ _. create_refused 500 internal (omega arith))
                              (λ _. Ensures-get _ _ (
                                Ensures-require _ _ _ _
                                  (λ _. create_refused 500 internal (omega arith))
                                  (λ d made. Ensures-modify _ _ _ (
                                    Ensures-modify _ _ _ (
                                      Ensures-pure _ _ (
                                        invite_created actor org req o d (is_actor, is_org, is_req)
                                          (a, rank.0, rank.1) (invite_assignable env req valid) room
                                          made))))))))))))

  pub revoke-outcome :
      (claims org_param invite_param : Option ℕ)
      → RevokeOutcome env claims org_param invite_param db
          (revoke env claims org_param invite_param db).0
          (revoke env claims org_param invite_param db).1
  unfolding revoke revoke_steps
  revoke-outcome claims org_param invite_param =
      run_meets {E = RevokeOutcome env claims org_param invite_param db}
        (revoke_steps env claims org_param invite_param) db
        (as_admin db _ revoke_refused env.fails claims org_param _
          (λ actor org is_actor is_org a rank.
            Ensures-require _ _ _ _ (λ _. revoke_refused 400 invalid_invite_id (omega arith))
              (λ id is_id.
                Ensures-stop_if _ _ _ _ (λ _. revoke_refused 500 internal (omega arith))
                  (λ _. Ensures-modify _ _ _ (
                    Ensures-modify _ _ _ (
                      Ensures-pure _ _ (
                        invite_revoked actor org id (is_actor, is_org, is_id)
                          (a, rank.0, rank.1))))))))

  join-Ensures :
      {claims : Option ℕ} {body : Option String} (user : ℕ) (token : String) (inv : Invite)
      (o : Organization)
      → (claims ≡ some user) × (body ≡ some token)
      → get_invite_by_token_hash env.now (env.hash_token token) db ≡ some inv
      → HasRoom inv.org_id db o
      → Ensures
          (AcceptOutcome env claims body db)
          (AcceptOutcome env claims body db)
          (join env user inv)
          db
  unfolding join
  join-Ensures {claims} {body} user token inv o from found room =
      Ensures-stop_if _ _ _ _ (λ _. accept_refused 500 internal (omega arith))
        (λ _. Ensures-get _ _ (
          Ensures-require _ _ _ _ (λ _. accept_refused 500 internal (omega arith))
            (λ mid used. Ensures-modify _ _ _ (
              Ensures-stop_if _ _ _ _ (λ _. only_consumed token inv mid from.1 found used)
                (λ _.
                  Ensures-require _ _ _ _ (λ _. only_consumed token inv mid from.1 found used)
                    (λ d joined. Ensures-modify _ _ _ (
                      Ensures-modify _ _ _ (
                        Ensures-pure _ _ (
                          invite_accepted user token inv o mid d from found room used
                            joined)))))))))

  pub accept-outcome :
      (claims : Option ℕ) (body : Option String)
      → AcceptOutcome env claims body db (accept env claims body db).0 (accept env claims body db).1
  unfolding accept accept_steps
  accept-outcome claims body =
      run_meets {E = AcceptOutcome env claims body db} (accept_steps env claims body) db (
        Ensures-require _ _ _ _ (λ _. accept_refused 401 invalid_user_id (omega arith))
          (λ user is_user.
            Ensures-require _ _ _ _ (λ _. accept_refused 400 invalid_body (omega arith))
              (λ token is_token.
                Ensures-stop_unless _ _ _ _ (λ _. accept_refused 400 validation (omega arith))
                  (λ _.
                    Ensures-stop_if _ _ _ _ (λ _. accept_refused 400 invalid_token (omega arith))
                      (λ _. Ensures-get _ _ (
                        Ensures-require _ _ _ _
                          (λ _. accept_refused 400 invalid_token (omega arith))
                          (λ inv found.
                            Ensures-check (HasRoom inv.org_id db) _ _ _
                              (check_limit-Ensures inv.org_id
                                (accept_refused 500 internal (omega arith))
                                (accept_refused 403 max_members_reached (omega arith)))
                              (λ o room.
                                join-Ensures user token inv o (is_user, is_token) found room))))))))
