-- ===== src/Prelude/TableLaws.antt =====
-- How counting and finding rows go through the other table functions.
use Prim.Native.Nat.{ℕ, ◌+◌, ◌≤◌}
use mathlib.Core.Path.{◌≡◌, refl}
use mathlib.Core.Logic.{inl, inr}
use mathlib.Core.Bool.{Bool, true, ◌&&◌}
use mathlib.Core.Option.{none, some}
use mathlib.Core.List.{List, [], ◌∷◌, ◌++◌}
use native.Mathlib.Omega.{arith}
use zagforge_mvp.Prelude.Tests.{Bool-cases, if◌then◌else◌}
use zagforge_mvp.Prelude.Tables.{
  find, update_where, select_where, count_where, any_where, insert_by, sort_by, All,
}

module _ {ℓ} {A : Type ℓ} where
  pub count_where-append :
      (p : A → Bool) (xs ys : List A)
      → count_where p (xs ++ ys) ≡ count_where p xs + count_where p ys
  count_where-append p [] ys = omega arith
  count_where-append p (x ∷ xs) ys = ground (arith, count_where-append p xs ys)

  -- an update that brings no new row under the test does not raise the count
  pub count_where-update_where :
      (p q : A → Bool) (f : A → A) (xs : List A)
      → ((x : A) → q x ≡ true → p (f x) ≡ true → p x ≡ true)
      → count_where p (update_where q f xs) ≤ count_where p xs
  count_where-update_where p q f [] h = omega arith
  count_where-update_where p q f (x ∷ xs) h =
      ground (arith, h x, count_where-update_where p q f xs h)

  pub count_where-select_where :
      (p q : A → Bool) (xs : List A)
      → ((x : A) → p x ≡ true → q x ≡ true)
      → count_where p (select_where q xs) ≡ count_where p xs
  count_where-select_where p q [] h = refl
  count_where-select_where p q (x ∷ xs) h = ground (arith, h x, count_where-select_where p q xs h)

  pub count_where_mono :
      (p q : A → Bool) (xs : List A)
      → ((x : A) → p x ≡ true → q x ≡ true)
      → count_where p xs ≤ count_where q xs
  count_where_mono p q [] h = omega arith
  count_where_mono p q (x ∷ xs) h = ground (arith, h x, count_where_mono p q xs h)

  pub count_where-insert_by :
      (key : A → ℕ) (p : A → Bool) (x : A) (xs : List A)
      → count_where p (insert_by key x xs) ≡ count_where p (x ∷ xs)
  count_where-insert_by key p x [] = refl
  count_where-insert_by key p x (y ∷ ys) = ground (arith, count_where-insert_by key p x ys)

  pub count_where-sort_by :
      (key : A → ℕ) (p : A → Bool) (xs : List A) → count_where p (sort_by key xs) ≡ count_where p xs
  count_where-sort_by key p [] = refl
  count_where-sort_by key p (x ∷ xs) =
      ground (arith, count_where-insert_by key p x (sort_by key xs), count_where-sort_by key p xs)

  pub count_where_of_find-none :
      (p : A → Bool) (xs : List A) → find p xs ≡ none → count_where p xs ≡ 0
  count_where_of_find-none p [] h = refl
  count_where_of_find-none p (x ∷ xs) h = ground (arith, count_where_of_find-none p xs)

  -- a row that is found passes the test
  pub find_sound : (p : A → Bool) (xs : List A) {x : A} → find p xs ≡ some x → p x ≡ true
  find_sound p [] h = ground arith
  find_sound p (y ∷ ys) {x} h = ground (arith, find_sound p ys {x = x})

  -- an update keeps a predicate that its function keeps on the rows it touches
  pub All-update_where {κ} :
      (P : A → Type κ) (q : A → Bool) (f : A → A) (xs : List A)
      → ((x : A) → q x ≡ true → P x → P (f x))
      → All P xs
      → All P (update_where q f xs)
  All-update_where P q f [] h a = a
  All-update_where P q f (x ∷ xs) h a = elim (Bool-cases (q x)) [
    | inl e ↦ (rw e (h x e a.0), All-update_where P q f xs h a.1)
    | inr e ↦ (rw e a.0, All-update_where P q f xs h a.1)
  ]

  -- existence of a row, through each function
  pub any_where_of_find :
      (p r : A → Bool) (xs : List A) {x : A}
      → find p xs ≡ some x
      → r x ≡ true
      → any_where r xs ≡ true
  any_where_of_find p r [] h k = ground arith
  any_where_of_find p r (y ∷ ys) {x} h k = ground (arith, any_where_of_find p r ys {x = x})

  pub any_where_mono :
      (p q : A → Bool) (xs : List A)
      → ((x : A) → p x ≡ true → q x ≡ true)
      → any_where p xs ≡ true
      → any_where q xs ≡ true
  any_where_mono p q [] h k = ground arith
  any_where_mono p q (x ∷ xs) h k = ground (arith, h x, any_where_mono p q xs h)

  pub any_where-append :
      (p : A → Bool) (xs ys : List A)
      → any_where p (xs ++ ys) ≡ (if any_where p xs then true else any_where p ys)
  any_where-append p [] ys = refl
  any_where-append p (x ∷ xs) ys = ground (arith, any_where-append p xs ys)

  pub any_where-insert_by :
      (key : A → ℕ) (p : A → Bool) (x : A) (xs : List A)
      → any_where p (insert_by key x xs) ≡ any_where p (x ∷ xs)
  any_where-insert_by key p x [] = refl
  any_where-insert_by key p x (y ∷ ys) = ground (arith, any_where-insert_by key p x ys)

  pub any_where-sort_by :
      (key : A → ℕ) (p : A → Bool) (xs : List A) → any_where p (sort_by key xs) ≡ any_where p xs
  any_where-sort_by key p [] = refl
  any_where-sort_by key p (x ∷ xs) =
      ground (arith, any_where-insert_by key p x (sort_by key xs), any_where-sort_by key p xs)

  -- a row that a selection shows passes both tests
  pub any_where-select_where :
      (p q : A → Bool) (xs : List A)
      → any_where p (select_where q xs) ≡ true
      → any_where (λ x. p x && q x) xs ≡ true
  any_where-select_where p q [] k = ground arith
  any_where-select_where p q (x ∷ xs) k = ground (arith, any_where-select_where p q xs)

  pub any_where-update_where :
      (p q r : A → Bool) (f : A → A) (xs : List A)
      → ((x : A) → p x ≡ true → (q x ≡ true) × (r (f x) ≡ true))
      → any_where p xs ≡ true
      → any_where r (update_where q f xs) ≡ true
  any_where-update_where p q r f [] h k = ground arith
  any_where-update_where p q r f (x ∷ xs) h k =
      ground (arith, h x, any_where-update_where p q r f xs h)
