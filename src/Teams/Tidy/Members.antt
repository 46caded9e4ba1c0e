-- ===== src/Teams/Tidy/Members.antt =====
-- The keys of the two tables of teams through a deletion and the statements on members.
use zagforge_mvp.Prelude.{
  ℕ, String, ◌≡◌, refl, ◌∙◌, subst, arith, true, false, some, List, [], ◌∷◌, ◌++◌, ◌==◌, any_where,
  delete_where, count_where-delete_le, count_where-update_same, All-update_where, All-append_one,
  All_mono, All-left, All-delete_where,
}
use zagforge_mvp.Teams.Model.{Team, TeamDb}
use zagforge_mvp.Teams.Queries.{
  has_team_id, slugged, in_team_as, in_team, delete_team_row, made_member, create_team_membership,
  delete_team_membership, with_team_role, update_team_member_role,
}
use zagforge_mvp.Teams.{team_role}
use zagforge_mvp.Teams.Tidy.{Tidy, count-append_fresh}

-- the other teams are still there after a deletion
any_where-delete_other :
    (id k : ℕ) (xs : List Team)
    → (k == id) ≡ false
    → any_where (has_team_id k) (delete_where (has_team_id id) xs) ≡ any_where (has_team_id k) xs
any_where-delete_other id k [] h = refl
any_where-delete_other id k (x ∷ xs) h = ground (arith, any_where-delete_other id k xs h)

pub delete_team_row-Tidy : (id : ℕ) (db : TeamDb) → Tidy db → Tidy (delete_team_row id db)
unfolding delete_team_row
delete_team_row-Tidy id db v = record {
  one_team = λ i.
      omega (arith, v.one_team i, count_where-delete_le (has_team_id id) (has_team_id i) db.teams);
  one_slug = λ o s.
      omega (arith, v.one_slug o s, count_where-delete_le (has_team_id id) (slugged o s) db.teams);
  one_member = λ t u. omega (
    arith,
    v.one_member t u,
    count_where-delete_le (in_team id) (in_team_as t u) db.team_memberships,
  );
  placed =
      All_mono _ _ (delete_where (in_team id) db.team_memberships)
        (λ m h. any_where-delete_other id m.team_id db.teams h.1 ∙ h.0)
        (All-left _ (in_team id) db.team_memberships v.placed);
  ranked = All-delete_where _ (in_team id) db.team_memberships v.ranked;
}

pub create_team_membership-Tidy :
    (now id team user : ℕ) (role : String) (db d : TeamDb)
    → Tidy db
    → team_role role ≡ true
    → create_team_membership now id team user role db ≡ some d
    → Tidy d
unfolding create_team_membership
create_team_membership-Tidy now id team user role db d v rank made =
    let row = made_member now id team user role in
    let parts : (any_where (in_team_as team user) db.team_memberships ≡ false)
        × (any_where (has_team_id team) db.teams ≡ true)
        × (d.teams ≡ db.teams)
        × (d.team_memberships ≡ db.team_memberships ++ row ∷ []) =
      ground arith in
    rw (parts.2, parts.3)
      (record {
        one_team = v.one_team;
        one_slug = v.one_slug;
        one_member = λ t u.
            count-append_fresh (in_team_as t u) db.team_memberships row (v.one_member t u) (λ e.
              let t_same : team ≡ t = ground arith in
              let u_same : user ≡ u = ground arith in
              subst (λ p. any_where (in_team_as p u) db.team_memberships ≡ false) t_same
                (subst (λ q. any_where (in_team_as team q) db.team_memberships ≡ false) u_same
                  parts.0));
        placed = All-append_one _ db.team_memberships row v.placed parts.1;
        ranked = All-append_one _ db.team_memberships row v.ranked rank;
      })

pub delete_team_membership-Tidy :
    (team user : ℕ) (db : TeamDb) → Tidy db → Tidy (delete_team_membership team user db)
unfolding delete_team_membership
delete_team_membership-Tidy team user db v = record {
  one_team = v.one_team;
  one_slug = v.one_slug;
  one_member = λ t u. omega (
    arith,
    v.one_member t u,
    count_where-delete_le (in_team_as team user) (in_team_as t u) db.team_memberships,
  );
  placed = All-delete_where _ (in_team_as team user) db.team_memberships v.placed;
  ranked = All-delete_where _ (in_team_as team user) db.team_memberships v.ranked;
}

pub update_team_member_role-Tidy :
    (team user : ℕ) (role : String) (db : TeamDb)
    → Tidy db
    → team_role role ≡ true
    → Tidy (update_team_member_role team user role db)
unfolding update_team_member_role
update_team_member_role-Tidy team user role db v rank = record {
  one_team = v.one_team;
  one_slug = v.one_slug;
  one_member = λ t u. omega (
    arith,
    v.one_member t u,
    count_where-update_same (in_team_as team user) (in_team_as t u) (with_team_role role)
        db.team_memberships (λ x. refl),
  );
  placed =
      All-update_where _ (in_team_as team user) (with_team_role role) db.team_memberships
        (λ x _ h. h) v.placed;
  ranked =
      All-update_where _ (in_team_as team user) (with_team_role role) db.team_memberships
        (λ x _ _. rank) v.ranked;
}
