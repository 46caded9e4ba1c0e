-- ===== src/Webhooks/Dispatcher/Runs.antt =====
-- Run after run of DeliverPending of services/auth/internal/service/webhook/dispatcher.go, and how
-- many attempts one delivery has had.
use zagforge_mvp.Prelude.{
  not, leb, ◌||◌, ℕ, ◌+◌, ◌≤◌, ◌≡◌, refl, subst, some, List, [], ◌∷◌, arith, inl, inr, All,
  count_where, find, Bool-cases,
}
use zagforge_mvp.Webhooks.Model.{WebhookDelivery, HookDb, is_unset, has_delivery_id}
use zagforge_mvp.Webhooks.Dispatcher.{DispatchEnv, deliver_pending}
use zagforge_mvp.Webhooks.Dispatcher.Attempts.{received, Bounded, deliver_pending-Bounded}
use zagforge_mvp.Webhooks.Dispatcher.Tries.{attempts_made, Tried, run-Tried, run_unique}

-- runs that follow one another, and how many of them tried the delivery `id`
pub data Runs (id : ℕ) (db : HookDb) : ℕ → HookDb → Type 0 where
  no_run : Runs id db 0 db
  run :
      {n : ℕ} {mid : HookDb}
      → Runs id db n mid
      → (env : DispatchEnv) (batch_size : ℕ)
      → Runs id db (n + attempts_made env batch_size id mid) (deliver_pending env batch_size mid)

-- the rows after runs: one row with the id, with as many attempts more as were made
Reached : ℕ → ℕ → HookDb → Type 0
Reached id n d =
    (count_where (has_delivery_id id) d.deliveries ≤ 1) × Tried id n d × All Bounded d.deliveries

Runs-Reached :
    (id a : ℕ) {db : HookDb} {n : ℕ} {d : HookDb}
    → Runs id db n d
    → Reached id a db
    → Reached id (a + n) d
unfolding Reached
Runs-Reached id a no_run (u, (row, there, count), b) = (u, (row, there, omega (arith, count)), b)
Runs-Reached id a (run {n} {mid} l env batch_size) r =
    let (u, t, b) = Runs-Reached id a l r in
    let (row, there, count) = run-Tried env batch_size id (a + n) mid u t in
    (
      omega (arith, u, run_unique env batch_size id mid),
      (row, there, omega (arith, count)),
      deliver_pending-Bounded env batch_size mid b,
    )

Bounded-found :
    (id : ℕ) (xs : List WebhookDelivery) (row : WebhookDelivery)
    → All Bounded xs
    → find (has_delivery_id id) xs ≡ some row
    → Bounded row
Bounded-found id [] row a h = ground arith
Bounded-found id (x ∷ xs) row a h = elim (Bool-cases (has_delivery_id id x)) [
  | inl e ↦ let same : x ≡ row = ground arith in subst Bounded same a.0
  | inr e ↦ Bounded-found id xs row a.1 (ground arith)
]

-- Every run that reaches a delivery spends one of its five attempts, and no other run does: after
-- any runs, at any times, with any receivers and failures, its row has as many attempts more as
-- there were runs that listed it, read its subscription and wrote its result down; that is five at
-- most, and it is open exactly while it is fewer and the last recorded answer was not a status from
-- 200 to 299. It is assumed that the id is in the table once, and that at first every delivery has
-- five attempts at most and is open exactly while the same holds.
pub Runs-settled :
    (id n : ℕ) (db d : HookDb) (first : WebhookDelivery)
    → count_where (has_delivery_id id) db.deliveries ≤ 1
    → All Bounded db.deliveries
    → find (has_delivery_id id) db.deliveries ≡ some first
    → Runs id db n d
    → (row : WebhookDelivery) × (find (has_delivery_id id) d.deliveries ≡ some row)
      × (row.attempts ≡ first.attempts + n)
      × (row.attempts ≤ 5)
      × (is_unset row.delivered_at ≡ not (leb 5 row.attempts || received row.response_status))
unfolding Reached
Runs-settled id n db d first u b there l =
    let (u', (row, found, count), b') =
      Runs-Reached id first.attempts l (u, (first, there, refl), b) in
    let bounded = Bounded-found id d.deliveries row b' found in
    (row, found, count, bounded.few, bounded.open_until)
