-- ===== src/Webhooks/Rows.antt =====
-- Lists of deliveries, as the statements of the dispatcher make them.
use zagforge_mvp.Prelude.{
  ℕ, zero, suc, ◌≤◌, ◌≡◌, refl, Bool, false, some, List, [], ◌∷◌, arith, inl, inr, any_where,
  count_where, select_where, take, find, update_where, Bool-cases,
}
use zagforge_mvp.Webhooks.Model.{WebhookDelivery, has_delivery_id}

pub count_where-take :
    (p : WebhookDelivery → Bool) (n : ℕ) (xs : List WebhookDelivery)
    → count_where p (take n xs) ≤ count_where p xs
count_where-take p zero xs = ground arith
count_where-take p (suc n) [] = ground arith
count_where-take p (suc n) (x ∷ xs) = ground (arith, count_where-take p n xs)

pub count_where-select_le :
    (p q : WebhookDelivery → Bool) (xs : List WebhookDelivery)
    → count_where p (select_where q xs) ≤ count_where p xs
count_where-select_le p q [] = ground arith
count_where-select_le p q (x ∷ xs) = ground (arith, count_where-select_le p q xs)

pub none_there :
    (p : WebhookDelivery → Bool) (xs : List WebhookDelivery)
    → count_where p xs ≡ 0
    → any_where p xs ≡ false
none_there p [] h = refl
none_there p (x ∷ xs) h = ground (arith, none_there p xs)

pub find-update :
    (id : ℕ) (f : WebhookDelivery → WebhookDelivery) (xs : List WebhookDelivery)
    (row : WebhookDelivery)
    → ((d : WebhookDelivery) → (f d).id ≡ d.id)
    → find (has_delivery_id id) xs ≡ some row
    → find (has_delivery_id id) (update_where (has_delivery_id id) f xs) ≡ some (f row)
find-update id f [] row k h = ground arith
find-update id f (x ∷ xs) row k h = elim (Bool-cases (has_delivery_id id x)) [
  | inl e ↦ ground (arith, k x)
  | inr e ↦ ground (arith, find-update id f xs row k)
]
