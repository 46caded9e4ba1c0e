-- ===== src/Prelude/KeyLaws.antt =====
-- Counting through an update or a deletion by a unique key.
use Prim.Native.Nat.{ℕ, ◌+◌, ◌≤◌}
use mathlib.Core.Path.{◌≡◌, refl}
use mathlib.Core.Logic.{inl, inr}
use mathlib.Core.Bool.{Bool, false}
use mathlib.Core.Option.{none, some}
use mathlib.Core.List.{List, [], ◌∷◌}
use native.Mathlib.Omega.{arith}
use zagforge_mvp.Prelude.Tests.{Bool-cases, if◌then◌else◌}
use zagforge_mvp.Prelude.Tables.{find, update_where, delete_where, count_where, any_where}

abbrev pub bit : Bool → ℕ
bit b = if b then 1 else 0

module _ {ℓ} {A : Type ℓ} where
  pub update_where-absent :
      (p : A → Bool) (f : A → A) (xs : List A) → count_where p xs ≡ 0 → update_where p f xs ≡ xs
  update_where-absent p f [] h = refl
  update_where-absent p f (x ∷ xs) h = ground (arith, update_where-absent p f xs)

  pub delete_where-absent :
      (p : A → Bool) (xs : List A) → count_where p xs ≡ 0 → delete_where p xs ≡ xs
  delete_where-absent p [] h = refl
  delete_where-absent p (x ∷ xs) h = ground (arith, delete_where-absent p xs)

  -- one row changes, the one that the key finds
  pub count_where-update_one :
      (p q : A → Bool) (f : A → A) (xs : List A) {m : A}
      → count_where p xs ≤ 1
      → find p xs ≡ some m
      → count_where q (update_where p f xs) + bit (q m) ≡ count_where q xs + bit (q (f m))
  count_where-update_one p q f [] h k = ground arith
  count_where-update_one p q f (x ∷ xs) {m} h k = elim (Bool-cases (p x)) [
    | inl e ↦
        let same : x ≡ m = ground arith in
        let rest : update_where p f xs ≡ xs = update_where-absent p f xs (ground arith) in
        ground arith
    | inr e ↦ ground (arith, count_where-update_one p q f xs {m = m})
  ]

  pub count_where-delete_one :
      (p q : A → Bool) (xs : List A) {m : A}
      → count_where p xs ≤ 1
      → find p xs ≡ some m
      → count_where q (delete_where p xs) + bit (q m) ≡ count_where q xs
  count_where-delete_one p q [] h k = ground arith
  count_where-delete_one p q (x ∷ xs) {m} h k = elim (Bool-cases (p x)) [
    | inl e ↦
        let same : x ≡ m = ground arith in
        let rest : delete_where p xs ≡ xs = delete_where-absent p xs (ground arith) in ground arith
    | inr e ↦ ground (arith, count_where-delete_one p q xs {m = m})
  ]

  pub count_where-delete_le :
      (p q : A → Bool) (xs : List A) → count_where q (delete_where p xs) ≤ count_where q xs
  count_where-delete_le p q [] = omega arith
  count_where-delete_le p q (x ∷ xs) = ground (arith, count_where-delete_le p q xs)

  -- an update that changes no row's test
  pub count_where-update_same :
      (p q : A → Bool) (f : A → A) (xs : List A)
      → ((x : A) → q (f x) ≡ q x)
      → count_where q (update_where p f xs) ≡ count_where q xs
  count_where-update_same p q f [] h = refl
  count_where-update_same p q f (x ∷ xs) h = ground (arith, h x, count_where-update_same p q f xs h)

  pub any_where-update_same :
      (p q : A → Bool) (f : A → A) (xs : List A)
      → ((x : A) → q (f x) ≡ q x)
      → any_where q (update_where p f xs) ≡ any_where q xs
  any_where-update_same p q f [] h = refl
  any_where-update_same p q f (x ∷ xs) h = ground (arith, h x, any_where-update_same p q f xs h)

  pub count_where_of_absent :
      (p : A → Bool) (xs : List A) → any_where p xs ≡ false → count_where p xs ≡ 0
  count_where_of_absent p [] h = refl
  count_where_of_absent p (x ∷ xs) h = ground (arith, count_where_of_absent p xs)

  pub find_of_absent : (p : A → Bool) (xs : List A) → any_where p xs ≡ false → find p xs ≡ none
  find_of_absent p [] h = refl
  find_of_absent p (x ∷ xs) h = ground (arith, find_of_absent p xs)

  pub absent_of_find : (p : A → Bool) (xs : List A) → find p xs ≡ none → any_where p xs ≡ false
  absent_of_find p [] h = refl
  absent_of_find p (x ∷ xs) h = ground (arith, absent_of_find p xs)
