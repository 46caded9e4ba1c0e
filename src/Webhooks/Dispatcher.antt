-- ===== src/Webhooks/Dispatcher.antt =====
-- Dispatcher.DeliverPending, processDelivery and recordFailure of
-- services/auth/internal/service/webhook/dispatcher.go. The HTTP request of `deliver`, signed with the
-- subscription's secret, is a parameter.
pub mod Attempts
pub mod Tries
pub mod Runs
mod Tests
use zagforge_mvp.Prelude.{
  ℕ, ◌+◌, ◌*◌, ◌^◌, String, Bool, true, false, ◌&&◌, Option, none, some, List, [], ◌∷◌, ltb, leb,
  if◌then◌else◌,
}
use zagforge_mvp.Webhooks.Model.{
  WebhookSubscription, WebhookDelivery, HookDb, DeliveryResult, get_webhook_subscription,
  list_pending_deliveries, update_webhook_delivery_result,
}

-- what `deliver` returns: an error, which comes with the status 0, or a status and a body
pub data Sent : Type 0 where
  delivery_error : Sent
  answered : ℕ → String → Sent

-- The environment of one run: the clock, the receivers, and for each delivery whether reading its
-- subscription or writing its result fails. The failure of a write goes unnoticed.
pub record DispatchEnv : Type 0 where
  pub now : ℕ
  pub send : WebhookSubscription → WebhookDelivery → Sent
  pub list_fails : Bool
  pub read_fails : ℕ → Bool
  pub write_fails : ℕ → Bool

abbrev pub max_attempts : ℕ
max_attempts = 5

-- isSuccessStatus
abbrev pub is_success_status : ℕ → Bool
is_success_status status = leb 200 status && ltb status 300

-- `time.Duration(1<<uint(attempts)) * time.Minute`, in microseconds
abbrev pub backoff : ℕ → ℕ
backoff attempts = 2 ^ attempts * 60000000

-- recordFailure
abbrev pub failure : ℕ → ℕ → String → ℕ → DeliveryResult
failure now status body attempts = record {
  response_status = if ltb 0 status then some status else none;
  response_body = if ltb 0 status then some body else none;
  delivered_at = if leb max_attempts attempts then some now else none;
  attempts = attempts;
  next_retry_at = if ltb attempts max_attempts then some (now + backoff attempts) else none;
}

abbrev pub success : ℕ → ℕ → String → ℕ → DeliveryResult
success now status body attempts = record {
  response_status = some status;
  response_body = some body;
  delivered_at = some now;
  attempts = attempts;
  next_retry_at = none;
}

-- the result that processDelivery writes
unfoldable pub result_of : ℕ → ℕ → Sent → DeliveryResult
result_of now attempts delivery_error = failure now 0 "" attempts
result_of now attempts (answered status body) =
    if is_success_status status
    then success now status body attempts
    else failure now status body attempts

module _ (env : DispatchEnv) where
  open env use {now, send, list_fails, read_fails, write_fails}

  -- processDelivery
  process_delivery : WebhookSubscription → WebhookDelivery → HookDb → HookDb
  process_delivery sub del db =
      if write_fails del.id
      then db
      else update_webhook_delivery_result del.id (result_of now (del.attempts + 1) (send sub del))
          db

  pub with_subscription : Option WebhookSubscription → WebhookDelivery → HookDb → HookDb
  with_subscription none del db = db
  with_subscription (some sub) del db = process_delivery sub del db

  -- the body of the loop: `continue` when the subscription cannot be read
  deliver_one : WebhookDelivery → HookDb → HookDb
  deliver_one del db =
      with_subscription
        (if read_fails del.id then none else get_webhook_subscription del.subscription_id db) del db

  pub deliver_all : List WebhookDelivery → HookDb → HookDb
  deliver_all [] db = db
  deliver_all (del ∷ dels) db = deliver_all dels (deliver_one del db)

  -- DeliverPending
  pub deliver_pending : ℕ → HookDb → HookDb
  deliver_pending batch_size db =
      if list_fails then db else deliver_all (list_pending_deliveries now batch_size db) db
