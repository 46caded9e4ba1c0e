-- ===== src/Teams/Steps.antt =====
-- The role check in the handlers of teams, and the steps that they begin with.
use zagforge_mvp.Prelude.{ℕ, ◌≤◌, ◌≡◌, refl, ap, Option, some, arith}
use zagforge_mvp.Prelude.Flow.{Flow, go, answer, Act, ◌>>=◌, ◌>>◌, require}
use zagforge_mvp.Prelude.Outcome.{Meets, Ensures, Ensures-require, Ensures-check}
use zagforge_mvp.Orgs.Model.{Faults, OrgMembership, OrgDb}
use zagforge_mvp.Orgs.Access.{
  forbidden, invalid_user_id, invalid_org_id, Reply, refuse, require_org_admin_or_owner,
}
use zagforge_mvp.Orgs.Access.Rules.{
  Checked, Found, MemberWith, IsAdmin, require_org_admin_or_owner-Ensures,
}
use zagforge_mvp.Teams.Model.{TeamDb, TeamReply, shared, invalid_team_id, code_of}
use zagforge_mvp.Teams.{lifted, on_orgs, stop}

module _ (db : TeamDb) (E : TeamReply → TeamDb → Type 0)
    (stopped : (r : TeamReply) → 400 ≤ code_of r → E r db) where
  -- the role check writes nothing
  on_orgs-Ensures :
      (fails : Faults) (org user : ℕ)
      → Ensures
          (λ m d. (d ≡ db) × Found IsAdmin org user db.orgs m)
          E
          (on_orgs (require_org_admin_or_owner fails org user))
          db
  unfolding on_orgs
  on_orgs-Ensures fails org user = record {
    at =
        kept (require_org_admin_or_owner fails org user db.orgs)
          (require_org_admin_or_owner-Ensures fails org user db.orgs
            {E = λ r o. (r ≡ refuse 403 forbidden) × (o ≡ db.orgs)} (refl, refl)).at;
  }
    where
      kept :
          (o : Flow Reply OrgMembership × OrgDb)
          → Meets
              (Checked IsAdmin org user db.orgs)
              (λ r o. (r ≡ refuse 403 forbidden) × (o ≡ db.orgs))
              o
          → Meets (λ m d. (d ≡ db) × Found IsAdmin org user db.orgs m) E (lifted db o)
      kept (go m, o) (same, f) = (ap (λ x. record db { orgs = x }) same, f)
      kept (answer r, o) (is, same) =
          rw (is, same) (stopped (shared (refuse 403 forbidden)) (omega arith))

  module _ (fails : Faults) (claims org_param : Option ℕ) where
    -- the steps that every handler begins with
    pub as_admin :
        (rest : ℕ → ℕ → Act TeamDb TeamReply TeamReply)
        → ((a o : ℕ)
            → claims ≡ some a
            → org_param ≡ some o
            → MemberWith IsAdmin o a db.orgs
            → Ensures E E (rest a o) db)
        → Ensures E E
            (require claims (stop 401 invalid_user_id) >>= λ a.
              require org_param (stop 400 invalid_org_id) >>= λ o.
              on_orgs (require_org_admin_or_owner fails o a) >> rest a o)
            db
    as_admin rest k =
        Ensures-require _ _ _ _ (λ _. stopped _ (omega arith))
          (λ a is_a.
            Ensures-require _ _ _ _ (λ _. stopped _ (omega arith))
              (λ o is_o.
                Ensures-check (Found IsAdmin o a db.orgs) _ _ _ (on_orgs-Ensures fails o a)
                  (λ m found. k a o is_a is_o (m, found.0, found.1))))

    -- the same with the team of the URL
    pub as_admin_of :
        (team_param : Option ℕ) (rest : ℕ → ℕ → ℕ → Act TeamDb TeamReply TeamReply)
        → ((a o t : ℕ)
            → claims ≡ some a
            → org_param ≡ some o
            → team_param ≡ some t
            → MemberWith IsAdmin o a db.orgs
            → Ensures E E (rest a o t) db)
        → Ensures E E
            (require claims (stop 401 invalid_user_id) >>= λ a.
              require org_param (stop 400 invalid_org_id) >>= λ o.
              require team_param invalid_team_id >>= λ t.
              on_orgs (require_org_admin_or_owner fails o a) >> rest a o t)
            db
    as_admin_of team_param rest k =
        Ensures-require _ _ _ _ (λ _. stopped _ (omega arith))
          (λ a is_a.
            Ensures-require _ _ _ _ (λ _. stopped _ (omega arith))
              (λ o is_o.
                Ensures-require _ _ _ _ (λ _. stopped _ (omega arith))
                  (λ t is_t.
                    Ensures-check (Found IsAdmin o a db.orgs) _ _ _ (on_orgs-Ensures fails o a)
                      (λ m found. k a o t is_a is_o is_t (m, found.0, found.1)))))
