-- ===== src/Webhooks/Model.antt =====
-- The rows of webhook_subscriptions and webhook_deliveries, and the statements of
-- services/auth/internal/store/webhooks.sql.go that the dispatcher sends.
use zagforge_mvp.Prelude.{
  ℕ, String, Bool, true, false, ◌&&◌, Option, none, some, List, leb, ◌==◌, find, update_where,
  select_where, sort_by, take,
}

pub record WebhookSubscription : Type 0 where
  pub id : ℕ
  pub org_id : ℕ
  pub url : String
  pub secret : String
  pub events : List String
  pub active : Bool

pub record WebhookDelivery : Type 0 where
  pub id : ℕ
  pub subscription_id : ℕ
  pub event : String
  pub payload : String
  pub response_status : Option ℕ
  pub response_body : Option String
  pub delivered_at : Option ℕ
  pub attempts : ℕ
  pub next_retry_at : Option ℕ
  pub created_at : ℕ

pub record HookDb : Type 0 where
  pub subscriptions : List WebhookSubscription
  pub deliveries : List WebhookDelivery

-- getWebhookSubscription
unfoldable pub get_webhook_subscription : ℕ → HookDb → Option WebhookSubscription
get_webhook_subscription id db = find (λ s. s.id == id) db.subscriptions

abbrev pub is_unset : Option ℕ → Bool
is_unset none = true
is_unset (some t) = false

-- `next_retry_at IS NULL OR next_retry_at <= now()`
abbrev pub due : ℕ → Option ℕ → Bool
due now none = true
due now (some t) = leb t now

abbrev pub is_pending : ℕ → WebhookDelivery → Bool
is_pending now d = is_unset d.delivered_at && due now d.next_retry_at

-- listPendingDeliveries
unfoldable pub list_pending_deliveries : ℕ → ℕ → HookDb → List WebhookDelivery
list_pending_deliveries now limit db =
    take limit (sort_by (λ d. d.created_at) (select_where (is_pending now) db.deliveries))

abbrev pub has_delivery_id : ℕ → WebhookDelivery → Bool
has_delivery_id id d = d.id == id

-- the SET list of updateWebhookDeliveryResult
pub record DeliveryResult : Type 0 where
  pub response_status : Option ℕ
  pub response_body : Option String
  pub delivered_at : Option ℕ
  pub attempts : ℕ
  pub next_retry_at : Option ℕ

abbrev pub set_result : DeliveryResult → WebhookDelivery → WebhookDelivery
set_result r d = record d {
  response_status = r.response_status;
  response_body = r.response_body;
  delivered_at = r.delivered_at;
  attempts = r.attempts;
  next_retry_at = r.next_retry_at;
}

unfoldable pub update_webhook_delivery_result : ℕ → DeliveryResult → HookDb → HookDb
update_webhook_delivery_result id r db = record db {
  deliveries = update_where (has_delivery_id id) (set_result r) db.deliveries;
}
