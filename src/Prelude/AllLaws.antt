-- ===== src/Prelude/AllLaws.antt =====
-- What holds of every row of a table holds of the rows that a query shows.
use Prim.Native.Nat.{ℕ, zero, suc}
use mathlib.Core.Path.{◌≡◌, refl}
use mathlib.Core.Logic.{inl, inr}
use mathlib.Core.Bool.{Bool, true, false}
use mathlib.Core.List.{List, [], ◌∷◌, ◌++◌}
use native.Mathlib.Omega.{arith}
use zagforge_mvp.Prelude.Tests.{Bool-cases, leb}
use zagforge_mvp.Prelude.Tables.{
  select_where, delete_where, any_where, take, insert_by, sort_by, All,
}

module _ {A : Type 0} (P : A → Type 0) where
  -- the rows that a selection shows pass its test too
  pub All-select_where :
      (q : A → Bool) (xs : List A) → All P xs → All (λ x. P x × (q x ≡ true)) (select_where q xs)
  All-select_where q [] a = tt
  All-select_where q (x ∷ xs) a = elim (Bool-cases (q x)) [
    | inl e ↦ rw e ((a.0, e), All-select_where q xs a.1)
    | inr e ↦ rw e (All-select_where q xs a.1)
  ]

  All-insert_by : (key : A → ℕ) (x : A) (xs : List A) → P x → All P xs → All P (insert_by key x xs)
  All-insert_by key x [] p a = (p, tt)
  All-insert_by key x (y ∷ ys) p a = elim (Bool-cases (leb (key x) (key y))) [
    | inl e ↦ rw e (p, a)
    | inr e ↦ rw e (a.0, All-insert_by key x ys p a.1)
  ]

  pub All-sort_by : (key : A → ℕ) (xs : List A) → All P xs → All P (sort_by key xs)
  All-sort_by key [] a = tt
  All-sort_by key (x ∷ xs) a = All-insert_by key x (sort_by key xs) a.0 (All-sort_by key xs a.1)

  pub All-take : (n : ℕ) (xs : List A) → All P xs → All P (take n xs)
  All-take zero xs a = tt
  All-take (suc n) [] a = tt
  All-take (suc n) (x ∷ xs) a = (a.0, All-take n xs a.1)

module _ {A : Type 0} where
  pub any_where-take :
      (p : A → Bool) (n : ℕ) (xs : List A)
      → any_where p xs ≡ false
      → any_where p (take n xs) ≡ false
  any_where-take p zero xs h = refl
  any_where-take p (suc n) [] h = refl
  any_where-take p (suc n) (x ∷ xs) h = ground (arith, any_where-take p n xs)

module _ {A : Type 0} (P : A → Type 0) where
  pub All-append_one : (xs : List A) (y : A) → All P xs → P y → All P (xs ++ y ∷ [])
  All-append_one [] y a h = (h, tt)
  All-append_one (x ∷ xs) y a h = (a.0, All-append_one xs y a.1 h)

  pub All_mono : (Q : A → Type 0) (xs : List A) → ((x : A) → P x → Q x) → All P xs → All Q xs
  All_mono Q [] f a = tt
  All_mono Q (x ∷ xs) f a = (f x a.0, All_mono Q xs f a.1)

  -- the rows that a deletion leaves fail its test
  pub All-left :
      (q : A → Bool) (xs : List A) → All P xs → All (λ x. P x × (q x ≡ false)) (delete_where q xs)
  All-left q [] a = tt
  All-left q (x ∷ xs) a = elim (Bool-cases (q x)) [
    | inl e ↦ rw e (All-left q xs a.1)
    | inr e ↦ rw e ((a.0, e), All-left q xs a.1)
  ]

  pub All-delete_where : (q : A → Bool) (xs : List A) → All P xs → All P (delete_where q xs)
  All-delete_where q [] a = tt
  All-delete_where q (x ∷ xs) a = elim (Bool-cases (q x)) [
    | inl e ↦ rw e (All-delete_where q xs a.1)
    | inr e ↦ rw e (a.0, All-delete_where q xs a.1)
  ]
