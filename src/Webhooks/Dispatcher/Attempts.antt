-- ===== src/Webhooks/Dispatcher/Attempts.antt =====
-- A delivery is tried five times at most, and a run leaves the settled ones alone.
use zagforge_mvp.Prelude.{
  Bool, ℕ, ◌+◌, ◌≤◌, ◌<◌, ◌≡◌, refl, ◌∙◌, true, false, ◌&&◌, ◌||◌, not, ltb, leb, Option, none,
  some, List, [], ◌∷◌, arith, inl, inr, All, All-update_where, All-select_where, All-sort_by,
  All-take, any_where-take, any_where, any_where-sort_by, any_where-select_where, select_where,
  sort_by, find, update_where, Bool-cases, ◌==◌,
}
use zagforge_mvp.Webhooks.Model.{
  WebhookSubscription, WebhookDelivery, HookDb, is_unset, is_pending, has_delivery_id, set_result,
  list_pending_deliveries, update_webhook_delivery_result,
}
use zagforge_mvp.Webhooks.Dispatcher.{
  Sent, delivery_error, answered, DispatchEnv, max_attempts, result_of, process_delivery,
  with_subscription, deliver_one, deliver_all, deliver_pending,
}

-- the receiver answered with a status of 200 to 299
abbrev pub received : Option ℕ → Bool
received none = false
received (some status) = leb 200 status && ltb status 300

-- at most five attempts, and the delivery is open exactly while there are fewer and it was not received
pub record Bounded (d : WebhookDelivery) : Type 0 where
  pub few : d.attempts ≤ 5
  pub open_until : is_unset d.delivered_at ≡ not (leb 5 d.attempts || received d.response_status)

Bounded-set_result :
    (now n : ℕ) (answer : Sent) (d : WebhookDelivery)
    → n < max_attempts
    → Bounded (set_result (result_of now (n + 1) answer) d)
unfolding result_of
Bounded-set_result now n delivery_error d h = ground arith
Bounded-set_result now n (answered status body) d h = ground arith

abbrev AllBounded : HookDb → Type 0
AllBounded db = All Bounded db.deliveries

-- a listed delivery has an attempt left
abbrev Listed : DispatchEnv → WebhookDelivery → Type 0
Listed env d = Bounded d × (is_pending env.now d ≡ true)

Listed-fewer : (env : DispatchEnv) (d : WebhookDelivery) → Listed env d → d.attempts < max_attempts
Listed-fewer env d (b, p) = ground (arith, b.open_until)

module _ (env : DispatchEnv) where
  process_delivery-Bounded :
      (sub : WebhookSubscription) (del : WebhookDelivery) (db : HookDb)
      → Listed env del
      → AllBounded db
      → AllBounded (process_delivery env sub del db)
  unfolding process_delivery update_webhook_delivery_result
  process_delivery-Bounded sub del db l a = elim (Bool-cases (env.write_fails del.id)) [
    | inl e ↦ rw e a
    | inr e ↦ rw e (
        All-update_where Bounded (has_delivery_id del.id)
          (set_result (result_of env.now (del.attempts + 1) (env.send sub del))) db.deliveries
          (λ d _ _.
            Bounded-set_result env.now del.attempts (env.send sub del) d (Listed-fewer env del l))
          a)
  ]

  with_subscription-Bounded :
      (o : Option WebhookSubscription) (del : WebhookDelivery) (db : HookDb)
      → Listed env del
      → AllBounded db
      → AllBounded (with_subscription env o del db)
  unfolding with_subscription
  with_subscription-Bounded none del db l a = a
  with_subscription-Bounded (some sub) del db l a = process_delivery-Bounded sub del db l a

  deliver_all-Bounded :
      (dels : List WebhookDelivery) (db : HookDb)
      → All (Listed env) dels
      → AllBounded db
      → AllBounded (deliver_all env dels db)
  unfolding deliver_all deliver_one
  deliver_all-Bounded [] db l a = a
  deliver_all-Bounded (del ∷ dels) db l a =
      deliver_all-Bounded dels _ l.1 (with_subscription-Bounded _ del db l.0 a)

  pub deliver_pending-Bounded :
      (batch_size : ℕ) (db : HookDb)
      → All Bounded db.deliveries
      → All Bounded (deliver_pending env batch_size db).deliveries
  unfolding deliver_pending list_pending_deliveries deliver_all deliver_one with_subscription
      process_delivery
  deliver_pending-Bounded batch_size db a = elim (Bool-cases env.list_fails) [
    | inl e ↦ rw e a
    | inr e ↦ rw e (
        deliver_all-Bounded (list_pending_deliveries env.now batch_size db) db
          (All-take (Listed env) batch_size _ (
            All-sort_by (Listed env) (λ d. d.created_at) _
              (All-select_where Bounded (is_pending env.now) db.deliveries a)))
          a)
  ]

  find_other :
      (id other : ℕ) (f : WebhookDelivery → WebhookDelivery) (xs : List WebhookDelivery)
      → ((d : WebhookDelivery) → (f d).id ≡ d.id)
      → (other == id) ≡ false
      → find (has_delivery_id id) (update_where (has_delivery_id other) f xs)
        ≡ find (has_delivery_id id) xs
  find_other id other f [] h k = refl
  find_other id other f (x ∷ xs) h k = ground (arith, h x, find_other id other f xs h k)

  process_delivery-other :
      (id : ℕ) (sub : WebhookSubscription) (del : WebhookDelivery) (db : HookDb)
      → has_delivery_id id del ≡ false
      → find (has_delivery_id id) (process_delivery env sub del db).deliveries
        ≡ find (has_delivery_id id) db.deliveries
  unfolding process_delivery update_webhook_delivery_result
  process_delivery-other id sub del db h = elim (Bool-cases (env.write_fails del.id)) [
    | inl e ↦ rw e refl
    | inr e ↦ rw e (
        find_other id del.id (set_result (result_of env.now (del.attempts + 1) (env.send sub del)))
          db.deliveries (λ d. refl) h)
  ]

  pub with_subscription-other :
      (id : ℕ) (o : Option WebhookSubscription) (del : WebhookDelivery) (db : HookDb)
      → has_delivery_id id del ≡ false
      → find (has_delivery_id id) (with_subscription env o del db).deliveries
        ≡ find (has_delivery_id id) db.deliveries
  unfolding with_subscription
  with_subscription-other id none del db h = refl
  with_subscription-other id (some sub) del db h = process_delivery-other id sub del db h

  pub deliver_all-other :
      (id : ℕ) (dels : List WebhookDelivery) (db : HookDb)
      → any_where (has_delivery_id id) dels ≡ false
      → find (has_delivery_id id) (deliver_all env dels db).deliveries
        ≡ find (has_delivery_id id) db.deliveries
  unfolding deliver_all deliver_one
  deliver_all-other id [] db h = refl
  deliver_all-other id (del ∷ dels) db h =
      deliver_all-other id dels _ (ground arith)
      ∙ with_subscription-other id _ del db (ground arith)

  not_listed :
      (id : ℕ) (xs : List WebhookDelivery)
      → any_where (λ d. has_delivery_id id d && is_pending env.now d) xs ≡ false
      → any_where
          (has_delivery_id id)
          (sort_by (λ d. d.created_at) (select_where (is_pending env.now) xs))
        ≡ false
  not_listed id xs h =
      let shown = select_where (is_pending env.now) xs in
      elim (Bool-cases (any_where (has_delivery_id id) shown)) [
        | inr e ↦ any_where-sort_by (λ d. d.created_at) (has_delivery_id id) shown ∙ e
        | inl e ↦
            let there = any_where-select_where (has_delivery_id id) (is_pending env.now) xs e in
            absurd (ground arith)
      ]

  -- A run leaves alone every delivery that is not pending: if no pending row has the id, the id
  -- finds the same row after the run as before.
  pub deliver_pending-settled :
      (batch_size id : ℕ) (db : HookDb)
      → any_where (λ d. has_delivery_id id d && is_pending env.now d) db.deliveries ≡ false
      → find (has_delivery_id id) (deliver_pending env batch_size db).deliveries
        ≡ find (has_delivery_id id) db.deliveries
  unfolding deliver_pending list_pending_deliveries deliver_all deliver_one with_subscription
      process_delivery
  deliver_pending-settled batch_size id db h = elim (Bool-cases env.list_fails) [
    | inl e ↦ rw e refl
    | inr e ↦ rw e (
        deliver_all-other id (list_pending_deliveries env.now batch_size db) db
          (any_where-take (has_delivery_id id) batch_size _ (not_listed id db.deliveries h)))
  ]
