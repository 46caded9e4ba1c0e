-- ===== src/Orgs/Spent.antt =====
-- What becomes of a token of an invite after it was accepted, through the calls that follow.
use zagforge_mvp.Prelude.{
  ℕ, ◌≤◌, String, ◌≡◌, refl, ◌∙◌, Bool, true, ◌&&◌, Option, some, arith, update_where, any_where,
  find_sound, any_where_of_find, any_where-update_same,
}
use zagforge_mvp.Orgs.Model.{Invite, OrgDb}
use zagforge_mvp.Orgs.Queries.{
  has_invite_id, has_token, is_open, accepted_now, get_invite_by_token_hash, accept_invite,
}
use zagforge_mvp.Orgs.Access.{Reply, OrgEnv}
use zagforge_mvp.Orgs.Untouched.{logged-invites}
use zagforge_mvp.Orgs.Settings.{CreateOrgRequest, create as create_org}
use zagforge_mvp.Orgs.Settings.Outcomes.{create-outcome as found-outcome, update-outcome}
use zagforge_mvp.Orgs.Members.{transfer_ownership}
use zagforge_mvp.Orgs.Members.Outcomes.{
  update_member_role-outcome, remove_member-outcome, transfer_ownership-outcome,
}
use zagforge_mvp.Orgs.Invites.{accept}
use zagforge_mvp.Orgs.Invites.Outcomes.{
  AcceptOutcome, accept_refused, only_consumed, invite_accepted, create-outcome as invite-outcome,
  revoke-outcome, accept-outcome,
}
use zagforge_mvp.Orgs.Invites.Tokens.{
  InvitesUnique, no_offer, closed_after, refused_later, create_org_membership-invites,
}
use zagforge_mvp.Orgs.Lifecycle.{
  OrgStep, updating, changing_role, removing, inviting, revoking, accepting,
}
use zagforge_mvp.Orgs.Accepted.{
  Spent, Spent-update_org, Spent-found, Spent-role, Spent-remove, Spent-transfer, Spent-invite,
  Spent-revoke, Spent-accept,
}

-- Calls that follow one another: those of `OrgStep`, ownership transfers and the creation of
-- organizations. The deletion of an organization, which takes its invites along, is not among them.
pub data Later (db : OrgDb) : OrgDb → Type 0 where
  at_once : Later db db
  step : {mid d : OrgDb} → Later db mid → OrgStep mid d → Later db d
  transfer :
      {mid : OrgDb}
      → Later db mid
      → (env : OrgEnv) (claims org_param : Option ℕ) (body : Option String)
      → Later db (transfer_ownership env claims org_param body mid).1
  founding :
      {mid : OrgDb}
      → Later db mid
      → (env : OrgEnv) (claims : Option ℕ) (body : Option CreateOrgRequest)
      → Later db (create_org env claims body mid).1

OrgStep-Spent : (hash : String) {db d : OrgDb} → OrgStep db d → Spent hash db → Spent hash d
OrgStep-Spent hash (updating env claims org_param body db) s =
    Spent-update_org hash (update-outcome env db claims org_param body) s
OrgStep-Spent hash (changing_role env claims org_param target_param body db) s =
    Spent-role hash (update_member_role-outcome env db claims org_param target_param body) s
OrgStep-Spent hash (removing env claims org_param target_param db) s =
    Spent-remove hash (remove_member-outcome env db claims org_param target_param) s
OrgStep-Spent hash (inviting env claims org_param body db) s =
    Spent-invite hash (invite-outcome env db claims org_param body) s
OrgStep-Spent hash (revoking env claims org_param invite_param db) s =
    Spent-revoke hash (revoke-outcome env db claims org_param invite_param) s
OrgStep-Spent hash (accepting env claims body db) s =
    Spent-accept hash (accept-outcome env db claims body) s

Later-Spent : (hash : String) {db d : OrgDb} → Later db d → Spent hash db → Spent hash d
Later-Spent hash at_once s = s
Later-Spent hash (step l t) s = OrgStep-Spent hash t (Later-Spent hash l s)
Later-Spent hash (transfer {mid} l env claims org_param body) s =
    Spent-transfer hash (transfer_ownership-outcome env mid claims org_param body)
      (Later-Spent hash l s)
Later-Spent hash (founding {mid} l env claims body) s =
    Spent-found hash (found-outcome env mid claims body) (Later-Spent hash l s)

-- the row of the token that was found is still there
accepted_there :
    {env : OrgEnv} {c : Option ℕ} {db : OrgDb} {r : Reply} {d : OrgDb} (token : String)
    → AcceptOutcome env c (some token) db r d
    → r.code ≡ 200
    → any_where (has_token (env.hash_token token)) d.invites ≡ true
unfolding get_invite_by_token_hash accept_invite
accepted_there token (accept_refused code e le) h = absurd (omega arith)
accepted_there token (only_consumed t inv mid is found used) h = absurd (omega arith)
accepted_there {env} {db = db} token
      (invite_accepted user t inv o mid d from found room used joined) h =
    let same : token ≡ t = ground arith in
    let hash = env.hash_token t in
    let shown : Invite → Bool = λ i. has_token hash i && is_open env.now i in
    let passes : shown inv ≡ true = find_sound shown db.invites found in
    let before : any_where (has_token hash) db.invites ≡ true =
      any_where_of_find shown (has_token hash) db.invites {x = inv} found (ground arith) in
    let key : Invite → Bool = λ i. has_invite_id inv.id i && is_open env.now i in
    let changed : mid.invites ≡ update_where key (accepted_now env.now) db.invites = ground arith in
    let kept =
      any_where-update_same key (has_token hash) (accepted_now env.now) db.invites (λ x. refl) in
    rw same (
      rw (logged-invites env.fails _ d)
        (rw (create_org_membership-invites _ _ _ _ _ mid d joined) (rw changed (kept ∙ before))))

-- A token joins one user: after an acceptance that is answered 200, and after any updates and
-- creations of organizations, changes of roles, removals, ownership transfers and creations,
-- revocations and acceptances of invites that follow, a request with the same token, by any user
-- and at any time, is refused and changes nothing. It is assumed that ids and token hashes of
-- invites are unique at the start, as the schema says, and that hashing the token again gives the
-- same text.
pub accept-once :
    (env later : OrgEnv) (claims claims' : Option ℕ) (token : String) (db d : OrgDb)
    → InvitesUnique db
    → later.hash_token token ≡ env.hash_token token
    → (accept env claims (some token) db).0.code ≡ 200
    → Later (accept env claims (some token) db).1 d
    → (400 ≤ (accept later claims' (some token) d).0.code)
      × ((accept later claims' (some token) d).1 ≡ d)
accept-once env later claims claims' token db d u same h l =
    let first = accept-outcome env db claims (some token) in
    let spent =
      Later-Spent (env.hash_token token) l
        (closed_after token u first h, accepted_there token first h) in
    let gone = no_offer later.now (env.hash_token token) d spent.0 in
    refused_later token (accept-outcome later d claims' (some token)) (rw same gone)
