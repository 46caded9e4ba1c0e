-- ===== src/Webhooks/Dispatcher/Tests.antt =====
-- One subscription with a delivery that waits and one that is done, and a run over them.
use zagforge_mvp.Prelude.{
  not, leb, ◌||◌, ◌+◌, ◌≤◌, ◌≡◌, refl, true, false, none, some, [], ◌∷◌, arith, find,
}
use zagforge_mvp.Webhooks.Model.{
  WebhookSubscription, WebhookDelivery, HookDb, is_unset, has_delivery_id, list_pending_deliveries,
  update_webhook_delivery_result, get_webhook_subscription,
}
use zagforge_mvp.Webhooks.Dispatcher.{
  Sent, answered, DispatchEnv, deliver_pending, deliver_all, deliver_one, with_subscription,
  process_delivery, result_of,
}
use zagforge_mvp.Webhooks.Dispatcher.Attempts.{received, Bounded}
use zagforge_mvp.Webhooks.Dispatcher.Runs.{Runs, no_run, run, Runs-settled}

abbrev hook : WebhookSubscription
hook = record {
  id = 1;
  org_id = 7;
  url = "https://example.org/hook";
  secret = "secret";
  events = "org.updated" ∷ [];
  active = true;
}

abbrev waiting : WebhookDelivery
waiting = record {
  id = 1;
  subscription_id = 1;
  event = "org.updated";
  payload = "one";
  response_status = some 503;
  response_body = some "busy";
  delivered_at = none;
  attempts = 4;
  next_retry_at = some 100;
  created_at = 10;
}

abbrev done : WebhookDelivery
done = record waiting {
  id = 2;
  response_status = some 204;
  delivered_at = some 50;
  attempts = 1;
  next_retry_at = none;
}

abbrev db : HookDb
db = record { subscriptions = hook ∷ []; deliveries = waiting ∷ done ∷ [] }

abbrev busy : Sent
busy = answered 503 "busy"

abbrev env : DispatchEnv
env = record {
  now = 200;
  send = λ sub del. busy;
  list_fails = false;
  read_fails = λ id. false;
  write_fails = λ id. false;
}

Bounded-waiting : Bounded waiting
Bounded-waiting = record { few = ground arith; open_until = refl }

Bounded-done : Bounded done
Bounded-done = record { few = ground arith; open_until = refl }

-- the fifth attempt is the last one, also when it fails
last_attempt :
    find (has_delivery_id 1) (deliver_pending env 10 db).deliveries
    ≡ some (record waiting { delivered_at = some 200; attempts = 5; next_retry_at = none })
unfolding deliver_pending list_pending_deliveries deliver_all deliver_one with_subscription
    process_delivery result_of update_webhook_delivery_result get_webhook_subscription
last_attempt = refl

one_run : Runs 1 db 1 (deliver_pending env 10 db)
unfolding list_pending_deliveries get_webhook_subscription
one_run = run no_run env 10

Runs-settled_example :
    (row : WebhookDelivery) × (find (has_delivery_id 1) (deliver_pending env 10 db).deliveries
      ≡ some row)
    × (row.attempts ≡ 4 + 1)
    × (row.attempts ≤ 5)
    × (is_unset row.delivered_at ≡ not (leb 5 row.attempts || received row.response_status))
Runs-settled_example =
    Runs-settled 1 1 db (deliver_pending env 10 db) waiting (ground arith)
      (Bounded-waiting, (Bounded-done, tt)) refl one_run
