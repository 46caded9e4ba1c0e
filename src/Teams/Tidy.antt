-- ===== src/Teams/Tidy.antt =====
-- The keys of the two tables of teams through each statement on teams.
pub mod Members
use zagforge_mvp.Prelude.{
  ℕ, ◌≤◌, String, ◌≡◌, refl, ◌∙◌, subst, arith, Bool, true, false, ◌&&◌, not, Option, none, some,
  List, [], ◌∷◌, ◌++◌, ◌==◌, Bool-cases, inl, inr, All, find, any_where, count_where, update_where,
  delete_where, any_where-append, any_where-update_same, count_where-append, count_where-delete_one,
  count_where-update_one, count_where-update_same, count_where_of_absent, All_mono, str_eq, eq_iff,
  bit,
}
use zagforge_mvp.Teams.Model.{Team, TeamMembership, TeamDb}
use zagforge_mvp.Teams.Queries.{
  has_team_id, slugged, in_team_as, get_team_by_id, made_team, create_team_row, with_team_details,
  slug_of_other, update_team_row,
}
use zagforge_mvp.Teams.{team_role}

-- the unique keys, the foreign key to the team, and the rule on the role column
pub record TeamsTidy (teams : List Team) (members : List TeamMembership) : Type 0 where
  pub one_team : (id : ℕ) → count_where (has_team_id id) teams ≤ 1
  pub one_slug : (org : ℕ) (slug : String) → count_where (slugged org slug) teams ≤ 1
  pub one_member : (team user : ℕ) → count_where (in_team_as team user) members ≤ 1
  pub placed : All (λ m. any_where (has_team_id m.team_id) teams ≡ true) members
  pub ranked : All (λ m. team_role m.role ≡ true) members

abbrev pub Tidy : TeamDb → Type 0
Tidy db = TeamsTidy db.teams db.team_memberships

-- a new row that a unique key lets in
pub count-append_fresh :
    {A : Type 0} (q : A → Bool) (xs : List A) (y : A)
    → count_where q xs ≤ 1
    → (q y ≡ true → any_where q xs ≡ false)
    → count_where q (xs ++ y ∷ []) ≤ 1
count-append_fresh q xs y one fresh = elim (Bool-cases (q y)) [
  | inl e ↦ ground (arith, count_where_of_absent q xs (fresh e), count_where-append q xs (y ∷ []))
  | inr e ↦ ground (arith, count_where-append q xs (y ∷ []))
]

slugged_eq :
    (org : ℕ) (slug : String) (o : ℕ) (s : String) (xs : List Team)
    → (org == o && str_eq slug s) ≡ true
    → any_where (slugged org slug) xs ≡ false
    → any_where (slugged o s) xs ≡ false
slugged_eq org slug o s xs e h =
    let o_same : org ≡ o = ground arith in
    let s_same : slug ≡ s = (eq_iff slug s).0 (ground arith) in
    subst (λ p. any_where (slugged p s) xs ≡ false) o_same
      (subst (λ q. any_where (slugged org q) xs ≡ false) s_same h)

pub create_team_row-Tidy :
    (now id org : ℕ) (slug name : String) (description : Option String) (db d : TeamDb)
    → Tidy db
    → create_team_row now id org slug name description db ≡ some d
    → Tidy d
unfolding create_team_row
create_team_row-Tidy now id org slug name description db d v made =
    let row = made_team now id org slug name description in
    let parts : (any_where (has_team_id id) db.teams ≡ false)
        × (any_where (slugged org slug) db.teams ≡ false)
        × (d.teams ≡ db.teams ++ row ∷ [])
        × (d.team_memberships ≡ db.team_memberships) =
      ground arith in
    rw (parts.2, parts.3)
      (record {
        one_team = λ i. count-append_fresh (has_team_id i) db.teams row (v.one_team i) (λ e.
            let same : id ≡ i = ground arith in
            subst (λ k. any_where (has_team_id k) db.teams ≡ false) same parts.0);
        one_slug = λ o s.
            count-append_fresh (slugged o s) db.teams row (v.one_slug o s)
              (λ e. slugged_eq org slug o s db.teams e parts.1);
        one_member = v.one_member;
        placed =
            All_mono _ _ db.team_memberships
              (λ m h. any_where-append (has_team_id m.team_id) db.teams (row ∷ []) ∙ rw h refl)
              v.placed;
        ranked = v.ranked;
      })

-- the rows left by a deletion, counted
count-delete_where :
    {A : Type 0} (p q : A → Bool) (xs : List A)
    → count_where q (delete_where p xs) ≡ count_where (λ x. q x && not (p x)) xs
count-delete_where p q [] = refl
count-delete_where p q (x ∷ xs) = ground (arith, count-delete_where p q xs)

module _ {teams : List Team} {members : List TeamMembership} (v : TeamsTidy teams members) where
  one_slug-update :
      (now id : ℕ) (name slug : String) (description : Option String) (t : Team)
      → find (has_team_id id) teams ≡ some t
      → any_where (slug_of_other id t.org_id slug) teams ≡ false
      → (o : ℕ) (s : String)
      → count_where
          (slugged o s)
          (update_where (has_team_id id) (with_team_details now name slug description) teams)
        ≤ 1
  one_slug-update now id name slug description t found free o s =
      let details = with_team_details now name slug description in
      let moved =
        count_where-update_one (has_team_id id) (slugged o s) details teams {m = t} (v.one_team id)
          found in
      elim (Bool-cases (t.org_id == o && str_eq slug s)) [
        | inr e ↦
            let gone : bit (slugged o s (details t)) ≡ 0 = ground arith in
            omega (arith, moved, gone, v.one_slug o s)
        | inl e ↦
            let o_same : t.org_id ≡ o = ground arith in
            let s_same : slug ≡ s = (eq_iff slug s).0 (ground arith) in
            let none_other : any_where (slug_of_other id o s) teams ≡ false =
              subst (λ p. any_where (slug_of_other id p s) teams ≡ false) o_same
                (subst (λ q. any_where (slug_of_other id t.org_id q) teams ≡ false) s_same free) in
            let rest =
              count_where-delete_one (has_team_id id) (slugged o s) teams {m = t} (v.one_team id)
                found in
            let there : bit (slugged o s (details t)) ≡ 1 = ground arith in
            omega (
              arith,
              moved,
              rest,
              there,
              count-delete_where (has_team_id id) (slugged o s) teams,
              count_where_of_absent (slug_of_other id o s) teams none_other,
            )
      ]

  details-Tidy :
      (now id : ℕ) (name slug : String) (description : Option String) (t : Team)
      → find (has_team_id id) teams ≡ some t
      → any_where (slug_of_other id t.org_id slug) teams ≡ false
      → TeamsTidy
          (update_where (has_team_id id) (with_team_details now name slug description) teams)
          members
  details-Tidy now id name slug description t found free =
      let details = with_team_details now name slug description in
      record {
        one_team = λ i. omega (
          arith,
          v.one_team i,
          count_where-update_same (has_team_id id) (has_team_id i) details teams (λ x. refl),
        );
        one_slug = one_slug-update now id name slug description t found free;
        one_member = v.one_member;
        placed =
            All_mono _ _ members
              (λ m h.
                any_where-update_same (has_team_id id) (has_team_id m.team_id) details teams
                  (λ x. refl)
                ∙ h)
              v.placed;
        ranked = v.ranked;
      }

pub update_team_row-Tidy :
    (now id : ℕ) (name slug : String) (description : Option String) (db d : TeamDb) (row : Team)
    → Tidy db
    → update_team_row now id name slug description db ≡ some (row, d)
    → Tidy d
unfolding update_team_row get_team_by_id
update_team_row-Tidy now id name slug description db d row v made =
    cases (find (has_team_id id) db.teams) refl
  where
    cases : (o : Option Team) → find (has_team_id id) db.teams ≡ o → Tidy d
    cases none e = absurd (ground arith)
    cases (some t) e =
        let parts : (any_where (slug_of_other id t.org_id slug) db.teams ≡ false)
            × (d.teams
                ≡ update_where (has_team_id id) (with_team_details now name slug description)
                    db.teams)
            × (d.team_memberships ≡ db.team_memberships) =
          ground arith in
        rw (parts.1, parts.2) (details-Tidy v now id name slug description t e parts.0)
