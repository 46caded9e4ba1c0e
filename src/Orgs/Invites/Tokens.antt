-- ===== src/Orgs/Invites/Tokens.antt =====
-- A token serves once.
use zagforge_mvp.Prelude.{
  ℕ, ◌≤◌, String, ◌≡◌, refl, Bool, true, false, ◌&&◌, Option, none, some, List, [], ◌∷◌, arith,
  ==_refl, find, find_sound, update_where, count_where, any_where, count_where-update_one,
  count_where_mono, Bool-cases, inl, inr,
}
use zagforge_mvp.Orgs.Model.{Invite, OrgDb}
use zagforge_mvp.Orgs.Queries.{
  has_invite_id, has_token, is_open, is_pending, accepted_now, revoked_now, revocable,
  get_invite_by_token_hash, accept_invite, revoke_invite, create_org_membership,
}
use zagforge_mvp.Orgs.Access.{Reply, OrgEnv}
use zagforge_mvp.Orgs.Untouched.{logged-invites}
use zagforge_mvp.Orgs.Invites.{on_org, revoke}
use zagforge_mvp.Orgs.Invites.Outcomes.{
  RevokeOutcome, revoke_refused, invite_revoked, AcceptOutcome, accept_refused, only_consumed,
  invite_accepted, revoke-outcome,
}

-- the primary key of invites and the unique token hash
pub record InvitesUnique (db : OrgDb) : Type 0 where
  pub ids : (id : ℕ) → count_where (has_invite_id id) db.invites ≤ 1
  pub tokens : (hash : String) → count_where (has_token hash) db.invites ≤ 1

-- a pending invite with the token
abbrev pub offers : String → Invite → Bool
offers hash i = has_token hash i && is_pending i.status

counted :
    (p q : Invite → Bool) (xs : List Invite) {i : Invite}
    → find q xs ≡ some i
    → p i ≡ true
    → 1 ≤ count_where p xs
counted p q [] k e = absurd (ground arith)
counted p q (x ∷ xs) {i} k e = ground (arith, counted p q xs {i = i})

-- a row that one key finds, and that passes another key, is the row that the other key finds
find_by_key :
    (p q : Invite → Bool) (xs : List Invite) {i : Invite}
    → count_where p xs ≤ 1
    → find q xs ≡ some i
    → p i ≡ true
    → find p xs ≡ some i
find_by_key p q [] h k e = ground arith
find_by_key p q (x ∷ xs) {i} h k e = elim (Bool-cases (q x)) [
  | inl hit ↦ ground arith
  | inr miss ↦
      let below : find q xs ≡ some i = ground arith in
      ground (arith, counted p q xs {i = i} below e, find_by_key p q xs {i = i})
]

-- acceptance leaves no pending invite with the token
accept_closes :
    (now : ℕ) (hash : String) (db d : OrgDb) {inv : Invite}
    → InvitesUnique db
    → get_invite_by_token_hash now hash db ≡ some inv
    → accept_invite now inv.id db ≡ some d
    → count_where (offers hash) d.invites ≡ 0
unfolding get_invite_by_token_hash accept_invite
accept_closes now hash db d {inv} u found used =
    let key : Invite → Bool = λ i. has_invite_id inv.id i && is_open now i in
    let shown : Invite → Bool = λ i. has_token hash i && is_open now i in
    let passes : shown inv ≡ true = find_sound shown db.invites found in
    let few : count_where key db.invites ≤ 1 = omega (
      arith,
      u.ids inv.id,
      count_where_mono key (has_invite_id inv.id) db.invites (λ x e. ground arith),
    ) in
    let row : find key db.invites ≡ some inv =
      find_by_key key shown db.invites few found (ground (arith, ==_refl inv.id)) in
    let changed : d.invites ≡ update_where key (accepted_now now) db.invites = ground arith in
    let offered : offers hash inv ≡ true = ground arith in
    let before : count_where (offers hash) db.invites ≤ 1 = omega (
      arith,
      u.tokens hash,
      count_where_mono (offers hash) (has_token hash) db.invites (λ x e. ground arith),
    ) in
    let step = count_where-update_one key (offers hash) (accepted_now now) db.invites few row in
    rw changed (ground arith)

pub no_offer :
    (now : ℕ) (hash : String) (d : OrgDb)
    → count_where (offers hash) d.invites ≡ 0
    → get_invite_by_token_hash now hash d ≡ none
unfolding get_invite_by_token_hash
no_offer now hash d h = rows d.invites h
  where
    rows :
        (xs : List Invite)
        → count_where (offers hash) xs ≡ 0
        → find (λ i. has_token hash i && is_open now i) xs ≡ none
    rows [] h = refl
    rows (x ∷ xs) h = ground (arith, rows xs)

pub create_org_membership-invites :
    (now id org user : ℕ) (role : String) (db d : OrgDb)
    → create_org_membership now id org user role db ≡ some d
    → d.invites ≡ db.invites
unfolding create_org_membership
create_org_membership-invites now id org user role db d h = ground arith

-- no pending invite has the token, whether its user became a member or not
pub closed_after :
    {env : OrgEnv} {c : Option ℕ} {db : OrgDb} {r : Reply} {d : OrgDb} (token : String)
    → InvitesUnique db
    → AcceptOutcome env c (some token) db r d
    → (r.code ≡ 200)
    → count_where (offers (env.hash_token token)) d.invites ≡ 0
closed_after token u (accept_refused code e le) h = absurd (omega arith)
closed_after token u (only_consumed t inv mid is_token found used) h = absurd (omega arith)
closed_after {env} {db = db} token u
      (invite_accepted user t inv o mid d from found room used joined) h =
    let same : token ≡ t = ground arith in
    let entry = on_org inv.org_id user "invite.accepted" in
    let shut = accept_closes env.now (env.hash_token t) db mid u found used in
    let kept = create_org_membership-invites _ _ _ _ _ mid d joined in
    rw same (rw (logged-invites env.fails entry d) (rw kept shut))

pub refused_later :
    {env : OrgEnv} {c : Option ℕ} {db : OrgDb} {r : Reply} {d : OrgDb} (token : String)
    → AcceptOutcome env c (some token) db r d
    → get_invite_by_token_hash env.now (env.hash_token token) db ≡ none
    → (400 ≤ r.code) × (d ≡ db)
refused_later token (accept_refused code e le) h = (le, refl)
refused_later {env} {db = db} token (only_consumed t inv mid is_token found used) h =
    let same : token ≡ t = ground arith in absurd (ground arith)
refused_later token (invite_accepted user t inv o mid d from found room used joined) h =
    let same : token ≡ t = ground arith in absurd (ground arith)

none_revocable :
    (id org : ℕ) (xs : List Invite)
    → any_where (revocable id org) (update_where (revocable id org) revoked_now xs) ≡ false
none_revocable id org [] = refl
none_revocable id org (x ∷ xs) = ground (arith, none_revocable id org xs)

revoke_closes :
    {env : OrgEnv} {c : Option ℕ} {org id : ℕ} {db : OrgDb} {r : Reply} {d : OrgDb}
    → RevokeOutcome env c (some org) (some id) db r d
    → r.code ≡ 200
    → any_where (revocable id org) d.invites ≡ false
unfolding revoke_invite
revoke_closes (revoke_refused code e le) h = absurd (omega arith)
revoke_closes {env} {org = org} {id = id} {db = db} (invite_revoked actor o i from admin) h =
    let is_org : o ≡ org = ground arith in
    let is_id : i ≡ id = ground arith in
    let entry = on_org o actor "invite.revoked" in
    rw (logged-invites env.fails entry (revoke_invite i o db))
      (rw (is_org, is_id) (none_revocable id org db.invites))

-- A revocation that is answered 200 leaves no pending invite with the id in the organization.
pub revoke-closed :
    (env : OrgEnv) (claims : Option ℕ) (org id : ℕ) (db : OrgDb)
    → (revoke env claims (some org) (some id) db).0.code ≡ 200
    → any_where (revocable id org) (revoke env claims (some org) (some id) db).1.invites ≡ false
revoke-closed env claims org id db h =
    revoke_closes (revoke-outcome env db claims (some org) (some id)) h
