-- ===== src/Orgs/Fixtures.antt =====
-- A small database of one organization and its calls, for the tests.
use Prim.Native.String.{◌++◌}
use zagforge_mvp.Prelude.{refl, true, false, none, some, [], ◌∷◌, arith, str_eq, if◌then◌else◌}
use zagforge_mvp.Orgs.Model.{Organization, Invite, OrgDb, org_owner, org_admin, org_member, Faults}
use zagforge_mvp.Orgs.Queries.{new_organization, new_membership, new_invite}
use zagforge_mvp.Orgs.Access.{OrgEnv}
use zagforge_mvp.Orgs.Owners.{IsValid}
use zagforge_mvp.Orgs.Invites.Tokens.{InvitesUnique}

abbrev no_faults : Faults
no_faults q = false

abbrev pub env : OrgEnv
env = record {
  fails = no_faults;
  now = 1000;
  new_id = 2;
  new_membership_id = 104;
  random_token = "fresh";
  scan_uuid = λ s. if str_eq s "u11" then some 11 else if str_eq s "u10" then some 10 else none;
  is_uuid = λ s. true;
  is_email = λ s. true;
  hash_token = λ s. "sha:" ++ s;
}

abbrev pub acme : Organization
acme = new_organization 1 1 "acme" "Acme"

abbrev pub open_invite : Invite
open_invite = new_invite 5 20 1 10 "new@acme.io" "member" "sha:t" 9000

-- user 10 owns the organization, 11 is an admin, 12 a member
abbrev pub db : OrgDb
db = record {
  organizations = acme ∷ [];
  memberships =
      new_membership 1 101 1 10 org_owner
      ∷ new_membership 2 102 1 11 org_admin
      ∷ new_membership 3 103 1 12 org_member
      ∷ [];
  invites = open_invite ∷ [];
  audit_logs = [];
}

pub db-IsValid : IsValid db
db-IsValid = record { members_unique = λ o u. ground arith; invites_assignable = (refl, tt) }

pub db-InvitesUnique : InvitesUnique db
db-InvitesUnique = record { ids = λ id. ground arith; tokens = λ hash. ground arith }
