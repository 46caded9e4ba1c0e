-- ===== src/Webhooks/Dispatcher/Tries.antt =====
-- One run of DeliverPending of services/auth/internal/service/webhook/dispatcher.go, and the attempt
-- that it makes at one delivery.
use zagforge_mvp.Prelude.{
  All-select_where, All_mono, ℕ, ◌+◌, ◌≤◌, ◌≡◌, refl, sym, ◌∙◌, subst, Bool, true, ◌||◌, Option,
  none, some, List, [], ◌∷◌, arith, if◌then◌else◌, inl, inr, All, All-sort_by, All-take,
  count_where, count_where-sort_by, count_where-update_same, select_where, sort_by, take, find,
  Bool-cases,
}
use zagforge_mvp.Webhooks.Model.{
  WebhookSubscription, WebhookDelivery, HookDb, is_pending, has_delivery_id, set_result,
  get_webhook_subscription, list_pending_deliveries, update_webhook_delivery_result,
}
use zagforge_mvp.Webhooks.Dispatcher.{
  Sent, delivery_error, answered, DispatchEnv, result_of, process_delivery, with_subscription,
  deliver_one, deliver_all, deliver_pending,
}
use zagforge_mvp.Webhooks.Dispatcher.Attempts.{with_subscription-other, deliver_all-other}
use zagforge_mvp.Webhooks.Rows.{count_where-take, none_there, count_where-select_le, find-update}

-- 1 when the subscription of a listed delivery is read and the result of the attempt is written
abbrev written : Bool → Option WebhookSubscription → ℕ
written lost none = 0
written lost (some sub) = if lost then 0 else 1

-- whether a statement about the delivery fails
abbrev lost : DispatchEnv → ℕ → Bool
lost env id = env.read_fails id || env.write_fails id

abbrev listed_attempt : DispatchEnv → ℕ → Option WebhookDelivery → HookDb → ℕ
listed_attempt env id none db = 0
listed_attempt env id (some del) db =
    written (lost env id) (get_webhook_subscription del.subscription_id db)

-- The attempts, none or one, that a run makes at a delivery and writes down: one when the pending
-- deliveries are listed and it is among the first of them, its subscription is read, and its result
-- is written.
abbrev pub attempts_made : DispatchEnv → ℕ → ℕ → HookDb → ℕ
attempts_made env batch_size id db =
    if env.list_fails
    then 0
    else listed_attempt env id
        (find (has_delivery_id id) (list_pending_deliveries env.now batch_size db)) db

-- the row of a delivery has `n` attempts
abbrev pub Tried : ℕ → ℕ → HookDb → Type 0
Tried id n db =
    (row : WebhookDelivery) × (find (has_delivery_id id) db.deliveries ≡ some row)
    × (row.attempts ≡ n)

-- the rows with the id have `n` attempts
abbrev pub HasTried : ℕ → ℕ → WebhookDelivery → Type 0
HasTried id n d = has_delivery_id id d ≡ true → d.attempts ≡ n

vacuous :
    (id n : ℕ) (xs : List WebhookDelivery)
    → count_where (has_delivery_id id) xs ≡ 0
    → All (HasTried id n) xs
vacuous id n [] h = tt
vacuous id n (x ∷ xs) h = (λ e. ground arith, vacuous id n xs (ground arith))

only_one :
    (id : ℕ) (xs : List WebhookDelivery) (row : WebhookDelivery)
    → count_where (has_delivery_id id) xs ≤ 1
    → find (has_delivery_id id) xs ≡ some row
    → All (HasTried id row.attempts) xs
only_one id [] row u f = tt
only_one id (x ∷ xs) row u f = elim (Bool-cases (has_delivery_id id x)) [
  | inl e ↦ (λ _. ground arith, vacuous id row.attempts xs (ground arith))
  | inr e ↦ (λ h. ground arith, only_one id xs row (ground arith) (ground arith))
]

result_of-attempts : (now n : ℕ) (answer : Sent) → (result_of now n answer).attempts ≡ n
unfolding result_of
result_of-attempts now n delivery_error = refl
result_of-attempts now n (answered status body) = ground arith

Tried-same :
    (id n : ℕ) (db d : HookDb)
    → find (has_delivery_id id) d.deliveries ≡ find (has_delivery_id id) db.deliveries
    → Tried id n db
    → Tried id n d
Tried-same id n db d same (row, there, count) = (row, same ∙ there, count)

module _ (env : DispatchEnv) where
  same_subscriptions :
      (o : Option WebhookSubscription) (del : WebhookDelivery) (db : HookDb)
      → (with_subscription env o del db).subscriptions ≡ db.subscriptions
  unfolding with_subscription process_delivery update_webhook_delivery_result
  same_subscriptions none del db = refl
  same_subscriptions (some sub) del db = ground arith

  same_listed :
      (id : ℕ) (o : Option WebhookDelivery) (db d : HookDb)
      → d.subscriptions ≡ db.subscriptions
      → listed_attempt env id o d ≡ listed_attempt env id o db
  unfolding get_webhook_subscription
  same_listed id none db d same = refl
  same_listed id (some del) db d same = rw same refl

  -- one delivery of the loop
  one_try :
      (a : ℕ) (del : WebhookDelivery) (o : Option WebhookSubscription) (db : HookDb)
      → del.attempts ≡ a
      → Tried del.id a db
      → Tried del.id
          (a + written (lost env del.id) o)
          (with_subscription env (if env.read_fails del.id then none else o) del db)
  unfolding with_subscription process_delivery update_webhook_delivery_result
  one_try a del none db same (row, there, count) = elim (Bool-cases (env.read_fails del.id)) [
    | inl e ↦ rw e (row, there, omega (arith, count))
    | inr e ↦ rw e (row, there, omega (arith, count))
  ]
  one_try a del (some sub) db same (row, there, count) = elim (Bool-cases (env.read_fails del.id)) [
    | inl e ↦ rw e (row, there, omega (arith, count))
    | inr e ↦ rw e (elim (Bool-cases (env.write_fails del.id)) [
      | inl w ↦ rw w (row, there, omega (arith, count))
      | inr w ↦ rw w (
          let r = result_of env.now (del.attempts + 1) (env.send sub del) in
          let counted : r.attempts ≡ del.attempts + 1 =
            result_of-attempts env.now (del.attempts + 1) (env.send sub del) in
          (
            set_result r row,
            find-update del.id (set_result r) db.deliveries row (λ d. refl) there,
            omega (arith, counted, same),
          ))
    ])
  ]

  deliver_one-Tried :
      (id a : ℕ) (del : WebhookDelivery) (db : HookDb)
      → has_delivery_id id del ≡ true
      → del.attempts ≡ a
      → Tried id a db
      → Tried id (a + listed_attempt env id (some del) db) (deliver_one env del db)
  unfolding deliver_one
  deliver_one-Tried id a del db e same t =
      let key : del.id ≡ id = ground arith in
      let o = get_webhook_subscription del.subscription_id db in
      subst (λ k. Tried k (a + written (lost env k) o) (deliver_one env del db)) key
        (one_try a del o db same (subst (λ k. Tried k a db) (sym key) t))

  deliver_all-Tried :
      (id a : ℕ) (dels : List WebhookDelivery) (db : HookDb)
      → count_where (has_delivery_id id) dels ≤ 1
      → All (HasTried id a) dels
      → Tried id a db
      → Tried id
          (a + listed_attempt env id (find (has_delivery_id id) dels) db)
          (deliver_all env dels db)
  unfolding deliver_all deliver_one
  deliver_all-Tried id a [] db u h (row, there, count) = (row, there, omega (arith, count))
  deliver_all-Tried id a (del ∷ dels) db u h t =
      let mid = deliver_one env del db in
      elim (Bool-cases (has_delivery_id id del)) [
        | inl e ↦ rw e (
            Tried-same id _ mid (deliver_all env dels mid)
              (deliver_all-other env id dels mid
                (none_there (has_delivery_id id) dels (ground arith)))
              (deliver_one-Tried id a del db e (h.0 e) t))
        | inr e ↦ rw e (
            rw⁻¹
              (same_listed id (find (has_delivery_id id) dels) db mid (same_subscriptions _ del db))
              (deliver_all-Tried id a dels mid (ground arith) h.1
                (Tried-same id a db mid (with_subscription-other env id _ del db e) t)))
      ]

  -- the listed deliveries are rows of the table
  pub run-Tried :
      (batch_size id a : ℕ) (db : HookDb)
      → count_where (has_delivery_id id) db.deliveries ≤ 1
      → Tried id a db
      → Tried id (a + attempts_made env batch_size id db) (deliver_pending env batch_size db)
  unfolding deliver_pending list_pending_deliveries deliver_all deliver_one with_subscription
      process_delivery
  run-Tried batch_size id a db u (row, there, count) = elim (Bool-cases env.list_fails) [
    | inl e ↦ rw e (row, there, omega (arith, count))
    | inr e ↦ rw e (
        let pending = select_where (is_pending env.now) db.deliveries in
        let sorted = sort_by (λ d. d.created_at) pending in
        let fewer : count_where (has_delivery_id id) (take batch_size sorted) ≤ 1 = omega (
          arith,
          u,
          count_where-take (has_delivery_id id) batch_size sorted,
          count_where-sort_by (λ d. d.created_at) (has_delivery_id id) pending,
          count_where-select_le (has_delivery_id id) (is_pending env.now) db.deliveries,
        ) in
        let P : WebhookDelivery → Type 0 = HasTried id a in
        let rows : All P db.deliveries =
          subst (λ n. All (HasTried id n) db.deliveries) count
            (only_one id db.deliveries row u there) in
        deliver_all-Tried id a (take batch_size sorted) db fewer
          (All-take P batch_size sorted (
            All-sort_by P (λ d. d.created_at) pending
              (All_mono (λ d. P d × (is_pending env.now d ≡ true)) P pending (λ d h. h.0)
                (All-select_where P (is_pending env.now) db.deliveries rows))))
          (row, there, count))
  ]

  unique_after :
      (id : ℕ) (dels : List WebhookDelivery) (db : HookDb)
      → count_where (has_delivery_id id) (deliver_all env dels db).deliveries
        ≡ count_where (has_delivery_id id) db.deliveries
  unfolding deliver_all deliver_one
  unique_after id [] db = refl
  unique_after id (del ∷ dels) db = unique_after id dels (deliver_one env del db) ∙ one_unique _ del
    where
      one_unique :
          (o : Option WebhookSubscription) (del : WebhookDelivery)
          → count_where (has_delivery_id id) (with_subscription env o del db).deliveries
            ≡ count_where (has_delivery_id id) db.deliveries
      one_unique none del = unfold with_subscription in refl
      one_unique (some sub) del =
          unfold with_subscription process_delivery update_webhook_delivery_result in
          elim (Bool-cases (env.write_fails del.id)) [
            | inl w ↦ rw w refl
            | inr w ↦ rw w (
                count_where-update_same (has_delivery_id del.id) (has_delivery_id id) _
                  db.deliveries (λ d. refl))
          ]

  pub run_unique :
      (batch_size id : ℕ) (db : HookDb)
      → count_where (has_delivery_id id) (deliver_pending env batch_size db).deliveries
        ≡ count_where (has_delivery_id id) db.deliveries
  unfolding deliver_pending deliver_all deliver_one with_subscription process_delivery
  run_unique batch_size id db = elim (Bool-cases env.list_fails) [
    | inl e ↦ rw e refl
    | inr e ↦ rw e (unique_after id (list_pending_deliveries env.now batch_size db) db)
  ]
