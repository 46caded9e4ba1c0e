-- ===== src/Orgs/Settings/Tests.antt =====
-- The handlers of organizations on a small organization.
use zagforge_mvp.Prelude.{◌≡◌, refl, some}
use zagforge_mvp.Prelude.Flow.{◌>>=◌, run}
use zagforge_mvp.Orgs.Queries.{
  get_org_membership, create_organization, create_org_membership, delete_organization,
  create_audit_log,
}
use zagforge_mvp.Orgs.Access.{logged, require_owner}
use zagforge_mvp.Orgs.Fixtures.{env, db}
use zagforge_mvp.Orgs.Settings.{
  CreateOrgRequest, UpdateOrgRequest, create_steps, create, delete_steps, delete,
}

abbrev new_org : CreateOrgRequest
new_org = record { slug = "beta"; name = "Beta" }

abbrev details : UpdateOrgRequest
details = record { name = "Acme Ltd"; logo_url = ""; billing_email = "" }

made : (create env (some 12) (some new_org) db).0.code ≡ 201
unfolding create create_steps create_organization create_org_membership logged create_audit_log run
    ◌>>=◌
made = refl

gone : (delete env (some 10) (some 1) db).0.code ≡ 200
unfolding delete delete_steps require_owner get_org_membership delete_organization logged
    create_audit_log run ◌>>=◌
gone = refl
