-- ===== src/Context/Queries/Latest.antt =====
-- GetLatestSnapshot shows a newest snapshot of its branch.
use zagforge_mvp.Prelude.{
  ℕ, ◌≤◌, String, ◌≡◌, subst, arith, Bool, true, Option, none, some, List, [], ◌∷◌, ltb, Bool-cases,
  inl, inr, All, select_where,
}
use zagforge_mvp.Jobs.Model.{Snapshot}
use zagforge_mvp.Context.Model.{ContextDb}
use zagforge_mvp.Context.Queries.{on_branch, newer, newest, get_latest_snapshot}

-- the rows are no later than the shown one, and there are none if none is shown
abbrev UpTo : Option Snapshot → List Snapshot → Type 0
UpTo none l = All (λ s. ⊥) l
UpTo (some snap) l = All (λ s. s.created_at ≤ snap.created_at) l

All-later :
    (a b : ℕ) (l : List Snapshot)
    → a ≤ b
    → All (λ s. s.created_at ≤ a) l
    → All (λ s. s.created_at ≤ b) l
All-later a b [] h all = tt
All-later a b (s ∷ rest) h all = (omega (arith, all.0), All-later a b rest h all.1)

All-nothing : (b : ℕ) (l : List Snapshot) → All (λ s. ⊥) l → All (λ s. s.created_at ≤ b) l
All-nothing b [] all = tt
All-nothing b (s ∷ rest) all = absurd all.0

newer_bounds :
    (s t : Snapshot)
    → (s.created_at ≤ (newer s (some t)).created_at)
      × (t.created_at ≤ (newer s (some t)).created_at)
newer_bounds s t = elim (Bool-cases (ltb s.created_at t.created_at)) [
  | inl e ↦ rw e (ground arith, omega arith)
  | inr e ↦ rw e (omega arith, ground arith)
]

newer-UpTo :
    (s : Snapshot) (o : Option Snapshot) (rest : List Snapshot)
    → UpTo o rest
    → UpTo (some (newer s o)) (s ∷ rest)
newer-UpTo s none rest all = (omega arith, All-nothing s.created_at rest all)
newer-UpTo s (some t) rest all =
    let bounds = newer_bounds s t in
    (bounds.0, All-later t.created_at (newer s (some t)).created_at rest bounds.1 all)

newest-UpTo : (l : List Snapshot) → UpTo (newest l) l
newest-UpTo [] = tt
newest-UpTo (s ∷ rest) = newer-UpTo s (newest rest) rest (newest-UpTo rest)

-- what holds of the rows holds of the shown one
abbrev OfSome : (Snapshot → Type 0) → Option Snapshot → Type 0
OfSome P none = Unit
OfSome P (some s) = P s

newer-OfSome :
    (P : Snapshot → Type 0) (s : Snapshot) (o : Option Snapshot) → P s → OfSome P o → P (newer s o)
newer-OfSome P s none p q = p
newer-OfSome P s (some t) p q = elim (Bool-cases (ltb s.created_at t.created_at)) [
  | inl e ↦ rw e q
  | inr e ↦ rw e p
]

newest-OfSome : (P : Snapshot → Type 0) (l : List Snapshot) → All P l → OfSome P (newest l)
newest-OfSome P [] all = tt
newest-OfSome P (s ∷ rest) all = newer-OfSome P s (newest rest) all.0 (newest-OfSome P rest all.1)

select_where-passed :
    (q : Snapshot → Bool) (l : List Snapshot) → All (λ s. q s ≡ true) (select_where q l)
select_where-passed q [] = tt
select_where-passed q (s ∷ rest) = elim (Bool-cases (q s)) [
  | inl e ↦ rw e (e, select_where-passed q rest)
  | inr e ↦ rw e (select_where-passed q rest)
]

-- The snapshot that GetLatestSnapshot shows is one of that repository and branch, and no other
-- snapshot of them was made after it.
pub get_latest_snapshot-newest :
    (repo : ℕ) (branch : String) (db : ContextDb) (snap : Snapshot)
    → get_latest_snapshot repo branch db ≡ some snap
    → (on_branch repo branch snap ≡ true)
      × All
          (λ s. s.created_at ≤ snap.created_at)
          (select_where (on_branch repo branch) db.snapshots)
unfolding get_latest_snapshot
get_latest_snapshot-newest repo branch db snap h =
    let shown = select_where (on_branch repo branch) db.snapshots in
    (
      subst (OfSome (λ s. on_branch repo branch s ≡ true)) h (
          newest-OfSome (λ s. on_branch repo branch s ≡ true) shown
            (select_where-passed (on_branch repo branch) db.snapshots)),
      subst (λ o. UpTo o shown) h (newest-UpTo shown),
    )
