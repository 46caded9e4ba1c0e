-- ===== src/Teams/Outcomes.antt =====
-- How each team handler ends: refused, or carried out for an admin of the organization in the URL.
use zagforge_mvp.Prelude.{ℕ, ◌≤◌, String, ◌≡◌, refl, true, Option, some, arith}
use zagforge_mvp.Prelude.Outcome.{
  Ensures-pure, Ensures-stop_if, Ensures-stop_unless, Ensures-get, Ensures-modify, Ensures-require,
  run_meets,
}
use zagforge_mvp.Orgs.Access.{done, ok}
use zagforge_mvp.Orgs.Access.Rules.{MemberWith, IsAdmin}
use zagforge_mvp.Orgs.Settings.{text_or_null}
use zagforge_mvp.Teams.Model.{Team, TeamDb, TeamEnv, TeamReply, shared, team_shown, code_of}
use zagforge_mvp.Teams.Queries.{
  made_team, create_team_row, update_team_row, delete_team_row, create_team_membership,
  delete_team_membership, update_team_member_role,
}
use zagforge_mvp.Teams.Steps.{as_admin, as_admin_of}
use zagforge_mvp.Teams.{
  TeamRequest, AddMemberRequest, team_request_valid, add_member_valid, team_role_valid, team_log,
  team_logged, create_team_steps, create_team, update_team_steps, update_team, delete_team_steps,
  delete_team, member_metadata, add_team_member_steps, add_team_member, remove_team_member_steps,
  remove_team_member, change_team_role_steps, change_team_role,
}

-- `Effect o a` is what the handler does for the actor `a` in the organization `o`.
pub data TeamOutcome (claims org_param : Option ℕ) (Effect : ℕ → ℕ → TeamReply → TeamDb → Type 0)
    (db : TeamDb) : TeamReply → TeamDb → Type 0 where
  refused : (r : TeamReply) → 400 ≤ code_of r → TeamOutcome claims org_param Effect db r db
  carried_out :
      (o a : ℕ) (r : TeamReply) (d : TeamDb)
      → claims ≡ some a
      → org_param ≡ some o
      → MemberWith IsAdmin o a db.orgs
      → Effect o a r d
      → TeamOutcome claims org_param Effect db r d

module _ (env : TeamEnv) (db : TeamDb) where
  open env use {org_env}
  open org_env use {fails, now, new_id, new_membership_id, scan_uuid}

  abbrev pub Created : Option TeamRequest → ℕ → ℕ → TeamReply → TeamDb → Type 0
  Created body o a r d =
      (req : TeamRequest) × (mid : TeamDb) × (body ≡ some req)
      × (team_request_valid req ≡ true)
      × (create_team_row now new_id o req.slug req.name (text_or_null req.description) db
          ≡ some mid)
      × (r
          ≡ team_shown 201
              (made_team now new_id o req.slug req.name (text_or_null req.description)))
      × (d ≡ team_logged env (team_log o a "team.created" "team" new_id "{}") mid)

  abbrev pub Updated : Option ℕ → Option TeamRequest → ℕ → ℕ → TeamReply → TeamDb → Type 0
  Updated team_param body o a r d =
      (t : ℕ) × (req : TeamRequest) × (row : Team) × (mid : TeamDb) × (team_param ≡ some t)
      × (body ≡ some req)
      × (team_request_valid req ≡ true)
      × (update_team_row now t req.name req.slug (text_or_null req.description) db
          ≡ some (row, mid))
      × (r ≡ team_shown 200 row)
      × (d ≡ team_logged env (team_log o a "team.updated" "team" t "{}") mid)

  abbrev pub Deleted : Option ℕ → ℕ → ℕ → TeamReply → TeamDb → Type 0
  Deleted team_param o a r d =
      (t : ℕ) × (team_param ≡ some t)
      × (r ≡ shared (ok "deleted"))
      × (d ≡ team_logged env (team_log o a "team.deleted" "team" t "{}") (delete_team_row t db))

  abbrev pub Added : Option ℕ → Option AddMemberRequest → ℕ → ℕ → TeamReply → TeamDb → Type 0
  Added team_param body o a r d =
      (t : ℕ) × (req : AddMemberRequest) × (user : ℕ) × (mid : TeamDb) × (team_param ≡ some t)
      × (body ≡ some req)
      × (add_member_valid org_env req ≡ true)
      × (scan_uuid req.user_id ≡ some user)
      × (create_team_membership now new_membership_id t user req.role db ≡ some mid)
      × (r ≡ shared (record { code = 201; body = done "added" }))
      × (d
          ≡ team_logged env
              (team_log o a "team.member.added" "user" user (member_metadata env t req.role)) mid)

  abbrev pub Removed : Option ℕ → Option ℕ → ℕ → ℕ → TeamReply → TeamDb → Type 0
  Removed team_param user_param o a r d =
      (t : ℕ) × (user : ℕ) × (team_param ≡ some t)
      × (user_param ≡ some user)
      × (r ≡ shared (ok "removed"))
      × (d
          ≡ team_logged env (team_log o a "team.member.removed" "user" user "{}")
              (delete_team_membership t user db))

  abbrev pub RoleChanged : Option ℕ → Option ℕ → Option String → ℕ → ℕ → TeamReply → TeamDb → Type 0
  RoleChanged team_param user_param body o a r d =
      (t : ℕ) × (user : ℕ) × (role : String) × (team_param ≡ some t)
      × (user_param ≡ some user)
      × (body ≡ some role)
      × (team_role_valid role ≡ true)
      × (r ≡ shared (ok "updated"))
      × (d ≡ update_team_member_role t user role db)

module _ (env : TeamEnv) (db : TeamDb) (claims org_param : Option ℕ) where
  pub create_team-outcome :
      (body : Option TeamRequest)
      → TeamOutcome claims org_param
          (Created env db body)
          db
          (create_team env claims org_param body db).0
          (create_team env claims org_param body db).1
  unfolding create_team create_team_steps
  create_team-outcome body =
      run_meets {E = TeamOutcome claims org_param (Created env db body) db}
        (create_team_steps env claims org_param body) db
        (as_admin db _ refused env.org_env.fails claims org_param _ (λ a o is_a is_o rank.
          Ensures-require _ _ _ _ (λ _. refused _ (omega arith))
            (λ req is_req.
              Ensures-stop_unless _ _ _ _ (λ _. refused _ (omega arith))
                (λ valid.
                  Ensures-stop_if _ _ _ _ (λ _. refused _ (omega arith))
                    (λ _. Ensures-get _ _ (
                      Ensures-require _ _ _ _ (λ _. refused _ (omega arith))
                        (λ mid made. Ensures-modify _ _ _ (
                          Ensures-modify _ _ _ (
                            Ensures-pure _ _ (
                              carried_out o a _ _ is_a is_o rank
                                (req, mid, is_req, valid, made, refl, refl)))))))))))

  pub update_team-outcome :
      (team_param : Option ℕ) (body : Option TeamRequest)
      → TeamOutcome claims org_param
          (Updated env db team_param body)
          db
          (update_team env claims org_param team_param body db).0
          (update_team env claims org_param team_param body db).1
  unfolding update_team update_team_steps
  update_team-outcome team_param body =
      run_meets {E = TeamOutcome claims org_param (Updated env db team_param body) db}
        (update_team_steps env claims org_param team_param body) db
        (as_admin_of db _ refused env.org_env.fails claims org_param team_param _
          (λ a o t is_a is_o is_t rank.
            Ensures-require _ _ _ _ (λ _. refused _ (omega arith))
              (λ req is_req.
                Ensures-stop_unless _ _ _ _ (λ _. refused _ (omega arith))
                  (λ valid.
                    Ensures-stop_if _ _ _ _ (λ _. refused _ (omega arith))
                      (λ _. Ensures-get _ _ (
                        Ensures-require _ _ _ _ (λ _. refused _ (omega arith))
                          (λ made is_made. Ensures-modify _ _ _ (
                            Ensures-modify _ _ _ (
                              Ensures-pure _ _ (
                                carried_out o a _ _ is_a is_o rank (
                                  t, req, made.0, made.1, is_t, is_req, valid, is_made, refl, refl,
                                )))))))))))

  pub delete_team-outcome :
      (team_param : Option ℕ)
      → TeamOutcome claims org_param
          (Deleted env db team_param)
          db
          (delete_team env claims org_param team_param db).0
          (delete_team env claims org_param team_param db).1
  unfolding delete_team delete_team_steps
  delete_team-outcome team_param =
      run_meets {E = TeamOutcome claims org_param (Deleted env db team_param) db}
        (delete_team_steps env claims org_param team_param) db
        (as_admin_of db _ refused env.org_env.fails claims org_param team_param _
          (λ a o t is_a is_o is_t rank.
            Ensures-stop_if _ _ _ _ (λ _. refused _ (omega arith))
              (λ _. Ensures-modify _ _ _ (
                Ensures-modify _ _ _
                  (Ensures-pure _ _ (carried_out o a _ _ is_a is_o rank (t, is_t, refl, refl)))))))

  pub add_team_member-outcome :
      (team_param : Option ℕ) (body : Option AddMemberRequest)
      → TeamOutcome claims org_param
          (Added env db team_param body)
          db
          (add_team_member env claims org_param team_param body db).0
          (add_team_member env claims org_param team_param body db).1
  unfolding add_team_member add_team_member_steps
  add_team_member-outcome team_param body =
      run_meets {E = TeamOutcome claims org_param (Added env db team_param body) db}
        (add_team_member_steps env claims org_param team_param body) db
        (as_admin_of db _ refused env.org_env.fails claims org_param team_param _
          (λ a o t is_a is_o is_t rank.
            Ensures-require _ _ _ _ (λ _. refused _ (omega arith))
              (λ req is_req.
                Ensures-stop_unless _ _ _ _ (λ _. refused _ (omega arith))
                  (λ valid.
                    Ensures-require _ _ _ _ (λ _. refused _ (omega arith))
                      (λ user is_user.
                        Ensures-stop_if _ _ _ _ (λ _. refused _ (omega arith))
                          (λ _. Ensures-get _ _ (
                            Ensures-require _ _ _ _ (λ _. refused _ (omega arith))
                              (λ mid made. Ensures-modify _ _ _ (
                                Ensures-modify _ _ _ (
                                  Ensures-pure _ _ (
                                    carried_out o a _ _ is_a is_o rank (
                                      t, req, user, mid, is_t, is_req, valid, is_user, made, refl,
                                      refl,
                                    ))))))))))))

  pub remove_team_member-outcome :
      (team_param user_param : Option ℕ)
      → TeamOutcome claims org_param
          (Removed env db team_param user_param)
          db
          (remove_team_member env claims org_param team_param user_param db).0
          (remove_team_member env claims org_param team_param user_param db).1
  unfolding remove_team_member remove_team_member_steps
  remove_team_member-outcome team_param user_param =
      run_meets {E = TeamOutcome claims org_param (Removed env db team_param user_param) db}
        (remove_team_member_steps env claims org_param team_param user_param) db
        (as_admin_of db _ refused env.org_env.fails claims org_param team_param _
          (λ a o t is_a is_o is_t rank.
            Ensures-require _ _ _ _ (λ _. refused _ (omega arith))
              (λ user is_user.
                Ensures-stop_if _ _ _ _ (λ _. refused _ (omega arith))
                  (λ _. Ensures-modify _ _ _ (
                    Ensures-modify _ _ _ (
                      Ensures-pure _ _ (
                        carried_out o a _ _ is_a is_o rank
                          (t, user, is_t, is_user, refl, refl))))))))

  pub change_team_role-outcome :
      (team_param user_param : Option ℕ) (body : Option String)
      → TeamOutcome claims org_param
          (RoleChanged env db team_param user_param body)
          db
          (change_team_role env claims org_param team_param user_param body db).0
          (change_team_role env claims org_param team_param user_param body db).1
  unfolding change_team_role change_team_role_steps
  change_team_role-outcome team_param user_param body =
      run_meets
        {E = TeamOutcome claims org_param (RoleChanged env db team_param user_param body) db}
        (change_team_role_steps env claims org_param team_param user_param body) db
        (as_admin_of db _ refused env.org_env.fails claims org_param team_param _
          (λ a o t is_a is_o is_t rank.
            Ensures-require _ _ _ _ (λ _. refused _ (omega arith))
              (λ user is_user.
                Ensures-require _ _ _ _ (λ _. refused _ (omega arith))
                  (λ role is_role.
                    Ensures-stop_unless _ _ _ _ (λ _. refused _ (omega arith))
                      (λ valid.
                        Ensures-stop_if _ _ _ _ (λ _. refused _ (omega arith))
                          (λ _. Ensures-modify _ _ _ (
                            Ensures-pure _ _ (
                              carried_out o a _ _ is_a is_o rank
                                (t, user, role, is_t, is_user, is_role, valid, refl, refl)))))))))
