-- ===== src/Workspace/Handlers/Creation.antt =====
-- What CreateOrg does beyond a new organization.
use Prim.Native.String.{◌++◌ as join}
use zagforge_mvp.Prelude.{
  ℕ, String, ◌≡◌, refl, ◌∙◌, ap, Option, none, some, List, [], ◌∷◌, ◌++◌, arith, Bool, true, false,
  ==_refl, find, update_where, any_where, any_where_of_find, any_where-update_same,
}
use zagforge_mvp.Prelude.Flow.{◌>>=◌, run}
use zagforge_mvp.Workspace.Model.{Organization, Membership, WorkDb, upsert_org, create_membership}
use zagforge_mvp.Workspace.Queries.{
  of_user, org_with_id, user_with_id, with_auth_id, get_membership_row, joined,
  create_membership_row, upsert_organization, insert_audit_log_row, renamed,
}
use zagforge_mvp.Workspace.Handlers.{
  WorkReply, WorkEnv, OrgRequest, org_request_valid, audit, create_org, create_org_steps,
}
use zagforge_mvp.Workspace.Handlers.Changes.{
  CreateOutcome, create_refused, only_upserted, org_made, create_org-outcome,
}
use zagforge_mvp.Workspace.Lifecycle.{audit-memberships}

-- the entry of CreateOrg fills both columns, which the CHECK of the table refuses
audit-refused :
    (env : WorkEnv) (caller org : ℕ) (action : String) (target : ℕ) (db : WorkDb)
    → audit env caller (some caller) org action target db ≡ db
unfolding audit insert_audit_log_row
audit-refused env caller org action target db = ground arith

upsert-audit_log :
    (now id : ℕ) (auth_id slug name : String) (db : WorkDb) {o : Organization} {d : WorkDb}
    → upsert_organization now id auth_id slug name db ≡ some (o, d)
    → d.audit_log ≡ db.audit_log
unfolding upsert_organization
upsert-audit_log now id auth_id slug name db made = ground arith

create_membership-audit_log :
    (now id user org : ℕ) (role : String) (inviter : Option ℕ) (db : WorkDb) {d : WorkDb}
    → create_membership_row now id user org role inviter db ≡ some d
    → d.audit_log ≡ db.audit_log
unfolding create_membership_row
create_membership-audit_log now id user org role inviter db made = ground arith

unaudited :
    {env : WorkEnv} {caller : ℕ} {body : Option OrgRequest} {db d : WorkDb} {r : WorkReply}
    → CreateOutcome env caller body db r d
    → d.audit_log ≡ db.audit_log
unaudited (create_refused code e le) = refl
unaudited (only_upserted b o mid is_body made) = upsert-audit_log _ _ _ _ _ _ made
unaudited {env} {caller} (org_made b o mid d is_body made joins) =
    ap (λ x. x.audit_log) (audit-refused env caller o.id "org.created" o.id d)
    ∙ create_membership-audit_log _ _ _ _ _ _ mid joins
    ∙ upsert-audit_log _ _ _ _ _ _ made

-- No call of CreateOrg is ever audited: whatever it asks and whichever statements fail, the audit
-- log is as it was, also when the organization is created.
pub create_org-unaudited :
    (env : WorkEnv) (caller : ℕ) (body : Option OrgRequest) (db : WorkDb)
    → (create_org env caller body db).1.audit_log ≡ db.audit_log
create_org-unaudited env caller body db = unaudited (create_org-outcome env caller db body)

find_last :
    (p : Membership → Bool) (xs : List Membership) (m : Membership)
    → any_where p xs ≡ false
    → p m ≡ true
    → find p (xs ++ m ∷ []) ≡ some m
find_last p [] m h k = ground arith
find_last p (x ∷ xs) m h k = ground (arith, find_last p xs m)

module _ (env : WorkEnv) (caller : ℕ) (b : OrgRequest) (o : Organization) (db : WorkDb)
    (upserts : env.fails upsert_org ≡ false) (joins : env.fails create_membership ≡ false)
    (valid : org_request_valid b ≡ true)
    (there : find (with_auth_id (join "local_" b.slug)) db.organizations ≡ some o)
    (known : any_where (user_with_id caller) db.users ≡ true)
    (stranger : any_where (of_user caller o.id) db.memberships ≡ false) where
  still_there :
      any_where
        (org_with_id o.id)
        (update_where (with_auth_id (join "local_" b.slug)) (renamed b.name) db.organizations)
      ≡ true
  still_there =
      any_where-update_same (with_auth_id (join "local_" b.slug)) (org_with_id o.id)
        (renamed b.name) db.organizations (λ x. refl)
      ∙ any_where_of_find (with_auth_id (join "local_" b.slug)) (org_with_id o.id) db.organizations
          {x = o} there (==_refl o.id)

  new_memberships :
      (create_org env caller (some b) db).1.memberships
      ≡ db.memberships ++ joined env.now env.new_membership_id caller o.id "owner" none ∷ []
  unfolding create_org create_org_steps run ◌>>=◌ upsert_organization create_membership_row
  new_memberships =
      rw (valid, upserts, there, joins, known, still_there, stranger)
        (audit-memberships env caller (some caller) o.id "org.created" o.id _)

  -- CreateOrg with the slug of an organization that was created before makes any caller who is not
  -- a member of it an owner of it: if no statement fails, the request is valid, and an organization
  -- has the identifier made of the slug, then the caller has a row in it with the role owner.
  pub create_org-takes_over :
      get_membership_row caller o.id (create_org env caller (some b) db).1
      ≡ some (joined env.now env.new_membership_id caller o.id "owner" none)
  unfolding get_membership_row
  create_org-takes_over = rw new_memberships (
      find_last (of_user caller o.id) db.memberships
        (joined env.now env.new_membership_id caller o.id "owner" none) stranger
        (ground (arith, ==_refl caller, ==_refl o.id)))
