-- ===== src/Workspace/Scope/Tests.antt =====
-- Requests of a user who is a member of no organization.
use zagforge_mvp.Prelude.{ℕ, String, ◌≡◌, refl, false, none, some, [], ◌∷◌}
use zagforge_mvp.Workspace.Model.{User, Organization, WorkDb}
use zagforge_mvp.Workspace.Queries.{joined}
use zagforge_mvp.Workspace.Scope.{
  Claims, OrgHeaders, ScopeEnv, scoped, scope, get_user_by_auth_id_row, get_organization_by_slug,
  ensure_user, sync_user, with_org, slug_of, ensure_org, sync_org, scoped_to,
}
use zagforge_mvp.Workspace.Scope.Settled.{GoesOn}
use zagforge_mvp.Workspace.Scope.Requests.{at_first, request, scope-settled}
use zagforge_mvp.Workspace.Scope.Blind.{with_memberships, answer_with, scope-memberships}

abbrev user : ℕ → String → User
user id email = record { id = id; username = email; email = email; auth_user_id = email }

abbrev acme : Organization
acme = record { id = 7; slug = "acme"; name = "Acme"; created_at = 1; auth_org_id = "local_acme" }

abbrev db : WorkDb
db = record {
  users = user 1 "o@x.org" ∷ user 3 "s@x.org" ∷ [];
  organizations = acme ∷ [];
  memberships = joined 5 100 1 7 "owner" none ∷ [];
  audit_log = [];
}

abbrev scope_env : ScopeEnv
scope_env = record { now = 60; new_user_id = 9; new_org_id = 10; fails = λ q. false }

-- user 3 is a member of no organization
abbrev claims : Claims
claims = record {
  subject = "s@x.org";
  email = "s@x.org";
  name = "s@x.org";
  org_id = "";
  org_slug = "";
}

abbrev headers : OrgHeaders
headers = record { slug = "acme"; auth_id = ""; name = "" }

abbrev personal : OrgHeaders
personal = record { slug = ""; auth_id = ""; name = "" }

named_org : scope scope_env (some claims) headers db ≡ (scoped 3 (some 7), db)
unfolding scope ensure_user sync_user with_org slug_of ensure_org sync_org scoped_to
    get_user_by_auth_id_row get_organization_by_slug
named_org = refl

-- the answer is the same with no memberships at all
scope-memberships_example :
    scope scope_env (some claims) headers (with_memberships [] db)
    ≡ answer_with [] (scope scope_env (some claims) headers db)
scope-memberships_example = scope-memberships scope_env (some claims) headers db []

-- someone with an account of the auth service only
abbrev newcomer : Claims
newcomer = record claims { subject = "n@x.org"; email = "n@x.org"; name = "n@x.org" }

scope-settled_example : GoesOn 3 (scope scope_env (some newcomer) personal db).1 (
    scope scope_env
      (some (record claims { name = "Other" }))
      personal
      (scope scope_env (some newcomer) personal db).1)
scope-settled_example =
    scope-settled scope_env scope_env claims (record claims { name = "Other" }) headers personal db
      db (scope scope_env (some newcomer) personal db).1 3 (some 7) named_org
      (request at_first scope_env (some newcomer) personal) refl refl
