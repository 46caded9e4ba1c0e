-- ===== src/Jobs/History.antt =====
-- How the table of jobs may change: rows stay in place, keep their identity, never fall back to an
-- earlier stage, and are frozen once terminal; new rows come at the end.
use zagforge_mvp.Prelude.{
  ℕ, ◌≤◌, String, ◌≡◌, refl, Bool, true, false, Option, some, List, [], ◌∷◌, ◌++◌, arith, find,
  update_where, any_where, Bool-cases, inl, inr, ◌⊎◌, subst, any_where_of_find, ==_refl,
  Option-cases,
}
use zagforge_mvp.Jobs.Model.{JobStatus, queued, running, is_terminal, is_queued, Job}
use zagforge_mvp.Jobs.Queries.{
  has_id, set_commit_sha, set_status, oldest_where, start_claimed, overdue, fail_overdue,
}

-- how far a job has come
abbrev pub rank : JobStatus → ℕ
rank queued = 0
rank running = 1
rank _ = 2

pub record Moves (a b : Job) : Type 0 where
  pub same_id : b.id ≡ a.id
  pub same_repo : b.repo_id ≡ a.repo_id
  pub same_branch : b.branch ≡ a.branch
  pub same_delivery : b.delivery_id ≡ a.delivery_id
  pub same_creation : b.created_at ≡ a.created_at
  pub onward : rank a.status ≤ rank b.status
  pub commit_kept : (b.commit_sha ≡ a.commit_sha) ⊎ (a.status ≡ queued)
  pub frozen : (is_terminal a.status ≡ false) ⊎ (b ≡ a)

pub Moves-refl : (a : Job) → Moves a a
Moves-refl a = ground arith

pub Moves-trans : {a b c : Job} → Moves a b → Moves b c → Moves a c
Moves-trans m n = ground arith

pub Moves-set_commit_sha :
    (now : ℕ) (sha : String) (a : Job)
    → is_queued a.status ≡ true
    → Moves a (set_commit_sha now sha a)
Moves-set_commit_sha now sha a h = ground arith

pub Moves-set_status :
    (now : ℕ) (s : JobStatus) (m : Option String) (a : Job)
    → is_terminal a.status ≡ false
    → rank a.status ≤ rank s
    → Moves a (set_status now s m a)
Moves-set_status now s m a h k = ground arith

pub Moves-start_claimed :
    (now : ℕ) (a : Job) → is_queued a.status ≡ true → Moves a (start_claimed now a)
Moves-start_claimed now a h = ground arith

pub Moves-fail_overdue :
    (now mins : ℕ) (a : Job) → overdue now mins a ≡ true → Moves a (fail_overdue now a)
Moves-fail_overdue now mins a h = ground arith

-- the rows before an operation, each as it moved, then the rows that it inserted
abbrev pub Evolves : List Job → List Job → Type 0
Evolves [] ys = Unit
Evolves (x ∷ xs) [] = ⊥
Evolves (x ∷ xs) (y ∷ ys) = Moves x y × Evolves xs ys

pub Evolves-refl : (xs : List Job) → Evolves xs xs
Evolves-refl [] = tt
Evolves-refl (x ∷ xs) = (Moves-refl x, Evolves-refl xs)

pub Evolves-trans : (xs ys zs : List Job) → Evolves xs ys → Evolves ys zs → Evolves xs zs
Evolves-trans [] ys zs h k = tt
Evolves-trans (x ∷ xs) [] zs h k = absurd h
Evolves-trans (x ∷ xs) (y ∷ ys) [] h k = absurd k
Evolves-trans (x ∷ xs) (y ∷ ys) (z ∷ zs) h k = (Moves-trans h.0 k.0, Evolves-trans xs ys zs h.1 k.1)

pub Evolves-append : (xs ys : List Job) → Evolves xs (xs ++ ys)
Evolves-append [] ys = tt
Evolves-append (x ∷ xs) ys = (Moves-refl x, Evolves-append xs ys)

pub Evolves-update_where :
    (q : Job → Bool) (f : Job → Job) (xs : List Job)
    → ((x : Job) → q x ≡ true → Moves x (f x))
    → Evolves xs (update_where q f xs)
Evolves-update_where q f [] h = tt
Evolves-update_where q f (x ∷ xs) h = elim (Bool-cases (q x)) [
  | inl e ↦ (rw e (h x e), Evolves-update_where q f xs h)
  | inr e ↦ (rw e (Moves-refl x), Evolves-update_where q f xs h)
]

-- the primary key
abbrev pub UniqueIds : List Job → Type 0
UniqueIds [] = Unit
UniqueIds (x ∷ xs) = (any_where (has_id x.id) xs ≡ false) × UniqueIds xs

update_where-absent :
    (id : ℕ) (f : Job → Job) (xs : List Job)
    → any_where (has_id id) xs ≡ false
    → update_where (has_id id) f xs ≡ xs
update_where-absent id f [] h = refl
update_where-absent id f (x ∷ xs) h = ground (arith, update_where-absent id f xs)

-- an update by primary key touches the one row that the key finds
pub Evolves-update_row :
    (id : ℕ) (f : Job → Job) (xs : List Job) {j : Job}
    → UniqueIds xs
    → find (has_id id) xs ≡ some j
    → Moves j (f j)
    → Evolves xs (update_where (has_id id) f xs)
Evolves-update_row id f [] u h m = tt
Evolves-update_row id f (x ∷ xs) {j} u h m = elim (Bool-cases (has_id id x)) [
  | inl e ↦ (
    rw e (subst (λ y. Moves y (f y)) (found e) m),
    rw (update_where-absent id f xs (ground arith)) (Evolves-refl xs),
  )
  | inr e ↦ (rw e (Moves-refl x), Evolves-update_row id f xs u.1 (ground arith) m)
]
  where
    found : has_id id x ≡ true → j ≡ x
    found e = ground arith

-- a row that the key finds is there
any_with_id :
    (xs : List Job) {j : Job} → find (has_id j.id) xs ≡ some j → any_where (has_id j.id) xs ≡ true
any_with_id xs {j} h = any_where_of_find (has_id j.id) (has_id j.id) xs h (==_refl j.id)

-- the oldest row of a selection is found by its id, and it is in the selection
pub oldest_where_row :
    (p : Job → Bool) (xs : List Job) {j : Job}
    → UniqueIds xs
    → oldest_where p xs ≡ some j
    → (find (has_id j.id) xs ≡ some j) × (p j ≡ true)
oldest_where_row p [] u h = cc
oldest_where_row p (x ∷ xs) {j} u h = elim (Option-cases (oldest_where p xs)) [
  | inl e ↦ ground arith
  | inr (k, e) ↦
      let (row, holds) = oldest_where_row p xs u.1 e in ground (arith, any_with_id xs {j = k} row)
]
