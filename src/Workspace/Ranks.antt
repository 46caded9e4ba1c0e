-- ===== src/Workspace/Ranks.antt =====
-- What a caller's role allows in an organization, and what CreateOrg allows without one.
use zagforge_mvp.Prelude.{
  ℕ, ◌≤◌, String, ◌≡◌, refl, subst, Option, none, some, List, [], ◌∷◌, arith, Bool, true, false,
  ◌&&◌, str_eq, find, update_where, select_where, any_where, count_where, Bool-cases, inl, inr,
}
use zagforge_mvp.Workspace.Model.{Membership, WorkDb}
use zagforge_mvp.Workspace.Queries.{
  of_user, owner_of, with_role, get_membership_row, update_membership_role,
}
use zagforge_mvp.Workspace.Handlers.{
  WorkReply, WorkEnv, OrgRequest, InviteRequest, owner_or_admin, only_owner, is_admin, owns_org,
  update_org, delete_org, invite_member, update_member_role, remove_member,
}
use zagforge_mvp.Workspace.Handlers.Checks.{RowOf}
use zagforge_mvp.Workspace.Handlers.Roles.{
  RoleOutcome, role_refused, role_changed, RemoveOutcome, remove_refused, removed,
  update_member_role-outcome, remove_member-outcome,
}
use zagforge_mvp.Workspace.Handlers.Changes.{
  UpdateOutcome, update_refused, org_changed, DeleteOutcome, delete_refused, org_deleted,
  InviteOutcome, invite_refused, invited, update_org-outcome, delete_org-outcome,
  invite_member-outcome,
}
use zagforge_mvp.Workspace.Lifecycle.{audit-memberships}

-- a row that a check found contradicts its absence
no_row :
    (p : Membership → Bool) (caller org o : ℕ) (db : WorkDb) (m : Membership)
    → get_membership_row caller org db ≡ none
    → some org ≡ some o
    → RowOf p caller o db m
    → ⊥
no_row p caller org o db m row same (found, rank) =
    let e : o ≡ org = ground arith in
    let found' : get_membership_row caller org db ≡ some m =
      subst (λ x. get_membership_row caller x db ≡ some m) e found in
    ground arith

module _ (env : WorkEnv) (caller org : ℕ) (db : WorkDb)
    (row : get_membership_row caller org db ≡ none) where
  update_unchanged :
      {d : WorkDb} {r : WorkReply} → UpdateOutcome env caller (some org) db r d → d ≡ db
  update_unchanged (update_refused code e le) = refl
  update_unchanged (org_changed o m b d is_org allowed made) =
      absurd (no_row owner_or_admin caller org o db m row is_org allowed)

  delete_unchanged :
      {d : WorkDb} {r : WorkReply} → DeleteOutcome env caller (some org) db r d → d ≡ db
  delete_unchanged (delete_refused code e le) = refl
  delete_unchanged (org_deleted o m is_org allowed) =
      absurd (no_row only_owner caller org o db m row is_org allowed)

  invite_unchanged :
      {body : Option InviteRequest} {d : WorkDb} {r : WorkReply}
      → InviteOutcome env caller (some org) body db r d
      → d ≡ db
  invite_unchanged (invite_refused code e le) = refl
  invite_unchanged (invited o m b u d (is_org, is_body) allowed found made) =
      absurd (no_row owner_or_admin caller org o db m row is_org allowed)

  role_unchanged :
      {user_param : Option ℕ} {body : Option String} {d : WorkDb} {r : WorkReply}
      → RoleOutcome env caller (some org) user_param body db r d
      → d ≡ db
  role_unchanged (role_refused code e le) = refl
  role_unchanged (role_changed o user role target (is_org, is_user, is_role) c) =
      absurd (no_row owner_or_admin caller org o db c.mine row is_org c.allowed)

  remove_unchanged :
      {user_param : Option ℕ} {d : WorkDb} {r : WorkReply}
      → RemoveOutcome env caller (some org) user_param db r d
      → d ≡ db
  remove_unchanged (remove_refused code e le) = refl
  remove_unchanged (removed o user (is_org, is_user) c) =
      absurd (no_row owner_or_admin caller org o db c.mine row is_org c.allowed)

  -- A user who is not a member of an organization changes nothing by asking for its update, its
  -- deletion, an invitation, a change of role or a removal: the tables stay as they are.
  pub stranger-unchanged :
      (user_param : Option ℕ) (details : Option OrgRequest) (invite : Option InviteRequest)
      (role : Option String)
      → ((update_org env caller (some org) details db).1 ≡ db)
        × ((delete_org env caller (some org) db).1 ≡ db)
        × ((invite_member env caller (some org) invite db).1 ≡ db)
        × ((update_member_role env caller (some org) user_param role db).1 ≡ db)
        × ((remove_member env caller (some org) user_param db).1 ≡ db)
  stranger-unchanged user_param details invite role = (
    update_unchanged (update_org-outcome env caller db (some org) details),
    delete_unchanged (delete_org-outcome env caller db (some org)),
    invite_unchanged (invite_member-outcome env caller db (some org) invite),
    role_unchanged (update_member_role-outcome env caller db (some org) user_param role),
    remove_unchanged (remove_member-outcome env caller db (some org) user_param),
  )

-- an update of rows outside a selection, which stay outside
select_where-update_outside :
    (p q : Membership → Bool) (f : Membership → Membership) (xs : List Membership)
    → ((m : Membership) → p m ≡ true → q (f m) ≡ false)
    → any_where (λ m. p m && q m) xs ≡ false
    → select_where q (update_where p f xs) ≡ select_where q xs
select_where-update_outside p q f [] h k = refl
select_where-update_outside p q f (x ∷ xs) h k =
    ground (arith, h x, select_where-update_outside p q f xs h)

-- with a unique key, the row found tells of every row with the key
only_row :
    (p q : Membership → Bool) (xs : List Membership) {m : Membership}
    → count_where p xs ≤ 1
    → find p xs ≡ some m
    → q m ≡ false
    → any_where (λ x. p x && q x) xs ≡ false
only_row p q [] one found no_q = refl
only_row p q (x ∷ xs) {m} one found no_q = elim (Bool-cases (p x)) [
  | inl e ↦
      let same : x ≡ m = ground arith in
      let rest : any_where (λ y. p y && q y) xs ≡ false = none_left xs (ground arith) in
      ground arith
  | inr e ↦ ground (arith, only_row p q xs {m = m})
]
  where
    none_left :
        (ys : List Membership) → count_where p ys ≡ 0 → any_where (λ y. p y && q y) ys ≡ false
    none_left [] h = refl
    none_left (y ∷ ys) h = ground (arith, none_left ys)

module _ (env : WorkEnv) (caller org : ℕ) (db : WorkDb)
    (keyed : (user o : ℕ) → count_where (of_user user o) db.memberships ≤ 1) (mine : Membership)
    (row : get_membership_row caller org db ≡ some mine) (rank : mine.role ≡ "admin") where
  owners_kept :
      {user_param : Option ℕ} {body : Option String} {r : WorkReply} {d : WorkDb}
      → RoleOutcome env caller (some org) user_param body db r d
      → (o : ℕ) → select_where (owner_of o) d.memberships ≡ select_where (owner_of o) db.memberships
  unfolding update_membership_role get_membership_row
  owners_kept (role_refused code e le) o = refl
  owners_kept (role_changed org' user role target (is_org, is_user, is_role) c) o =
      let same_org : org' ≡ org = ground arith in
      let allowed =
        subst (λ x. find (of_user caller x) db.memberships ≡ some c.mine) same_org c.allowed.0 in
      let same : c.mine ≡ mine = ground arith in
      let admin : is_admin c.mine ≡ true = rw same (rw rank refl) in
      let plain : owns_org target ≡ false = ground (arith, c.within_rank) in
      let demoted : str_eq role "owner" ≡ false = ground (arith, c.within_rank) in
      rw
        (audit-memberships env caller none org' "member.role_changed" user
          (update_membership_role user org' role db))
        (select_where-update_outside (of_user user org') (owner_of o) (with_role role)
          db.memberships (λ m h. ground arith)
          (only_row (of_user user org') (owner_of o) db.memberships {m = target} (keyed user org')
            c.found (ground arith)))

  -- An admin who changes a member's role leaves the owners of every organization as they are: the
  -- same rows, in the same order, whatever the request asks and whichever statements fail. The key
  -- of the memberships has to be unique.
  pub admin-owners :
      (user_param : Option ℕ) (body : Option String) (o : ℕ)
      → select_where
          (owner_of o)
          (update_member_role env caller (some org) user_param body db).1.memberships
        ≡ select_where (owner_of o) db.memberships
  admin-owners user_param body o =
      owners_kept (update_member_role-outcome env caller db (some org) user_param body) o
