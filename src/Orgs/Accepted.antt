-- ===== src/Orgs/Accepted.antt =====
-- What the handlers of organizations, members and invites do to an invite that was accepted.
use zagforge_mvp.Prelude.{
  ℕ, String, ◌≡◌, refl, sym, subst, eq_iff, false≢true, ◌++◌, ◌∙◌, Bool, true, false, ◌&&◌, Option,
  some, [], ◌∷◌, arith, update_where, count_where, any_where, any_where-append,
  any_where-update_same, count_where-append, count_where-update_where, Bool-cases, inl, inr,
}
use zagforge_mvp.Orgs.Model.{Invite, AuditLog, Faults, OrgDb}
use zagforge_mvp.Orgs.Queries.{
  has_invite_id, has_token, is_open, new_invite, accepted_now, revoked_now, revocable,
  accept_invite, revoke_invite, create_invite, create_organization, update_organization,
  update_org_member_role, delete_org_membership,
}
use zagforge_mvp.Orgs.Access.{Reply, OrgEnv, logged}
use zagforge_mvp.Orgs.Untouched.{logged-invites}
use zagforge_mvp.Orgs.Settings.{CreateOrgRequest, UpdateOrgRequest}
use zagforge_mvp.Orgs.Settings.Outcomes.{
  CreateOutcome as FoundOutcome, create_refused as found_refused, without_owner, org_created,
  UpdateOutcome, update_refused, no_row, org_updated, detailed,
}
use zagforge_mvp.Orgs.Members.Outcomes.{
  RoleOutcome, role_refused, role_updated, RemoveOutcome, remove_refused, removed, TransferOutcome,
  transfer_refused, half_transferred, transferred, both_roles,
}
use zagforge_mvp.Orgs.Invites.{CreateInviteRequest}
use zagforge_mvp.Orgs.Invites.Outcomes.{
  CreateOutcome as InviteOutcome, create_refused, invite_created, RevokeOutcome, revoke_refused,
  invite_revoked, AcceptOutcome, accept_refused, only_consumed, invite_accepted,
}
use zagforge_mvp.Orgs.Invites.Tokens.{offers, create_org_membership-invites}

-- an invite with the token is there, and none that is pending
abbrev pub Spent : String → OrgDb → Type 0
Spent hash db =
    (count_where (offers hash) db.invites ≡ 0) × (any_where (has_token hash) db.invites ≡ true)

Spent-same : (hash : String) (db d : OrgDb) → d.invites ≡ db.invites → Spent hash db → Spent hash d
Spent-same hash db d same s = rw same s

Spent-logged :
    (hash : String) (fails : Faults) (a : AuditLog) (d : OrgDb)
    → Spent hash d
    → Spent hash (logged fails a d)
Spent-logged hash fails a d s = Spent-same hash d (logged fails a d) (logged-invites fails a d) s

-- an update that keeps the tokens and makes no invite pending
Spent-update :
    (hash : String) (q : Invite → Bool) (f : Invite → Invite) (db d : OrgDb)
    → d.invites ≡ update_where q f db.invites
    → ((x : Invite) → has_token hash (f x) ≡ has_token hash x)
    → ((x : Invite) → offers hash (f x) ≡ true → offers hash x ≡ true)
    → Spent hash db
    → Spent hash d
Spent-update hash q f db d made keys less s =
    let fewer = count_where-update_where (offers hash) q f db.invites (λ x _ e. less x e) in
    rw made
      (omega (arith, fewer, s.0), any_where-update_same q (has_token hash) f db.invites keys ∙ s.1)

Spent-create_invite :
    (hash : String) (now id org by : ℕ) (email role h : String) (expires : ℕ) (db d : OrgDb)
    → create_invite now id org by email role h expires db ≡ some d
    → Spent hash db
    → Spent hash d
unfolding create_invite
Spent-create_invite hash now id org by email role h expires db d made s =
    let row = new_invite now id org by email role h expires in
    let parts : (any_where (has_token h) db.invites ≡ false)
        × (d.invites ≡ db.invites ++ row ∷ []) =
      ground arith in
    let other : has_token hash row ≡ false = elim (Bool-cases (has_token hash row)) [
      | inr e ↦ e
      | inl e ↦
          let same : h ≡ hash = (eq_iff h hash).0 e in
          let taken : any_where (has_token hash) db.invites ≡ false =
            subst (λ k. any_where (has_token k) db.invites ≡ false) same parts.0 in
          absurd (false≢true (sym taken ∙ s.1))
    ] in
    rw parts.1 (
      ground (arith, count_where-append (offers hash) db.invites (row ∷ [])),
      any_where-append (has_token hash) db.invites (row ∷ []) ∙ rw s.1 refl,
    )

Spent-accept_invite :
    (hash : String) (now id : ℕ) (db d : OrgDb)
    → accept_invite now id db ≡ some d
    → Spent hash db
    → Spent hash d
unfolding accept_invite
Spent-accept_invite hash now id db d made s =
    Spent-update hash (λ i. has_invite_id id i && is_open now i) (accepted_now now) db d
      (ground arith) (λ x. refl) (λ x e. ground arith) s

Spent-revoke_invite :
    (hash : String) (id org : ℕ) (db : OrgDb) → Spent hash db → Spent hash (revoke_invite id org db)
unfolding revoke_invite
Spent-revoke_invite hash id org db s =
    Spent-update hash (revocable id org) revoked_now db (revoke_invite id org db) refl (λ x. refl)
      (λ x e. ground arith) s

module _ (hash : String) where
  pub Spent-update_org :
      {env : OrgEnv} {db d : OrgDb} {r : Reply} {claims org_param : Option ℕ}
      {body : Option UpdateOrgRequest}
      → UpdateOutcome env claims org_param body db r d
      → Spent hash db
      → Spent hash d
  unfolding update_organization
  Spent-update_org (update_refused code e le) s = s
  Spent-update_org (no_row actor org req from admin gone) s = s
  Spent-update_org {env} {db = db} (org_updated actor org req row from admin found) s =
      Spent-logged hash env.fails _ (detailed env org req db) s

  pub Spent-found :
      {env : OrgEnv} {db d : OrgDb} {r : Reply} {claims : Option ℕ} {body : Option CreateOrgRequest}
      → FoundOutcome env claims body db r d
      → Spent hash db
      → Spent hash d
  unfolding create_organization
  Spent-found (found_refused code e le) s = s
  Spent-found {db = db} (without_owner req mid is made) s = Spent-same hash db mid (ground arith) s
  Spent-found {env} {db = db} (org_created user req mid d' from made joined) s =
      Spent-logged hash env.fails _ d' (
        Spent-same hash mid d' (create_org_membership-invites _ _ _ _ _ mid d' joined)
          (Spent-same hash db mid (ground arith) s))

  pub Spent-role :
      {env : OrgEnv} {db d : OrgDb} {r : Reply} {claims org_param : Option ℕ}
      {target_param : Option ℕ} {body : Option String}
      → RoleOutcome env claims org_param target_param body db r d
      → Spent hash db
      → Spent hash d
  unfolding update_org_member_role
  Spent-role (role_refused code e le) s = s
  Spent-role {env} {db = db} (role_updated org actor target role from is admin plain ok) s =
      Spent-logged hash env.fails _ (update_org_member_role env.now org target role db) s

  pub Spent-remove :
      {env : OrgEnv} {db d : OrgDb} {r : Reply} {claims org_param : Option ℕ}
      {target_param : Option ℕ}
      → RemoveOutcome env claims org_param target_param db r d
      → Spent hash db
      → Spent hash d
  unfolding delete_org_membership
  Spent-remove (remove_refused code e le) s = s
  Spent-remove {env} {db = db} (removed org actor target from admin plain) s =
      Spent-logged hash env.fails _ (delete_org_membership org target db) s

  pub Spent-transfer :
      {env : OrgEnv} {db d : OrgDb} {r : Reply} {claims org_param : Option ℕ} {body : Option String}
      → TransferOutcome env claims org_param body db r d
      → Spent hash db
      → Spent hash d
  unfolding update_org_member_role
  Spent-transfer (transfer_refused code e le) s = s
  Spent-transfer (half_transferred org actor new_owner c a n) s = s
  Spent-transfer {env} {db = db} (transferred org actor new_owner c a n) s =
      Spent-logged hash env.fails _ (both_roles env org actor new_owner db) s

  pub Spent-invite :
      {env : OrgEnv} {db d : OrgDb} {r : Reply} {claims org_param : Option ℕ}
      {body : Option CreateInviteRequest}
      → InviteOutcome env claims org_param body db r d
      → Spent hash db
      → Spent hash d
  Spent-invite (create_refused code e le) s = s
  Spent-invite {env} {db = db} (invite_created actor org req o d' from admin ok room made) s =
      Spent-logged hash env.fails _ d' (Spent-create_invite hash _ _ _ _ _ _ _ _ db d' made s)

  pub Spent-revoke :
      {env : OrgEnv} {db d : OrgDb} {r : Reply} {claims org_param : Option ℕ}
      {invite_param : Option ℕ}
      → RevokeOutcome env claims org_param invite_param db r d
      → Spent hash db
      → Spent hash d
  Spent-revoke (revoke_refused code e le) s = s
  Spent-revoke {env} {db = db} (invite_revoked actor org id from admin) s =
      Spent-logged hash env.fails _ (revoke_invite id org db) (Spent-revoke_invite hash id org db s)

  pub Spent-accept :
      {env : OrgEnv} {db d : OrgDb} {r : Reply} {claims : Option ℕ} {body : Option String}
      → AcceptOutcome env claims body db r d
      → Spent hash db
      → Spent hash d
  Spent-accept (accept_refused code e le) s = s
  Spent-accept {env} {db = db} (only_consumed token inv mid is found used) s =
      Spent-accept_invite hash env.now inv.id db mid used s
  Spent-accept {env} {db = db} (invite_accepted user token inv o mid d' from found room used joined)
        s =
      Spent-logged hash env.fails _ d' (
        Spent-same hash mid d' (create_org_membership-invites _ _ _ _ _ mid d' joined)
          (Spent-accept_invite hash env.now inv.id db mid used s))
