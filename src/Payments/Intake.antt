-- ===== src/Payments/Intake.antt =====
-- handleRazorpayWebhook of server/controllers/orderController.js, with the collection of events of
-- server/models/razorpayWebhookEventModel.js and its unique index. Refund events go to the refund
-- service, which catches what it throws, and are no part of this state.
use lavish_fashion.Prelude.{
  ℕ, suc, Bool, true, false, not, List, [], ◌∷◌, ◌++◌, any, update_by, Result, ok, err, ◌==◌,
  if◌then◌else◌,
}
use lavish_fashion.Payments.{Shop}
use lavish_fashion.Payments.Attempts.{PaymentError}
use lavish_fashion.Payments.Webhook.{
  PaymentEntity, handle_razorpay_payment_authorized, handle_razorpay_payment_captured,
  handle_razorpay_payment_failed,
}

-- `payment_captured` stands for `order.paid` too.
pub data EventType : Type 0 where
  payment_authorized payment_captured payment_failed refund_event unhandled_event : EventType

pub record WebhookEvent : Type 0 where
  pub event_id : ℕ
  pub processed : Bool
  pub attempts : ℕ

abbrev pub event_key : WebhookEvent → ℕ
event_key e = e.event_id

pub record Desk : Type 0 where
  pub shop : Shop
  pub events : List WebhookEvent

-- What a call of the webhook brings, and what the checks of it find.
pub record Arrival : Type 0 where
  pub signed : Bool
  pub configured : Bool
  pub signature_valid : Bool
  pub payload_valid : Bool
  pub event_id : ℕ
  pub event_type : EventType
  pub entity : PaymentEntity

pub data Received : Type 0 where
  missing_signature not_configured invalid_signature invalid_payload : Received
  persistence_failed duplicate ignored received processing_failed : Received

abbrev pub new_event : ℕ → WebhookEvent
new_event k = record { event_id = k; processed = false; attempts = 1 }

abbrev pub mark_processed : WebhookEvent → WebhookEvent
mark_processed e = record e { processed = true }

abbrev pub mark_unprocessed : WebhookEvent → WebhookEvent
mark_unprocessed e = record e { processed = false; attempts = suc e.attempts }

-- `order_id` is the id of an order that is created.
unfoldable pub dispatch :
    ℕ → ℕ → EventType → PaymentEntity → Shop → Result PaymentError (Unit {0}) × Shop
unfolding handle_razorpay_payment_authorized handle_razorpay_payment_captured
    handle_razorpay_payment_failed
dispatch now id payment_authorized e s = (ok tt, handle_razorpay_payment_authorized now e s)
dispatch now id payment_captured e s = handle_razorpay_payment_captured now id e s
dispatch now id payment_failed e s = (ok tt, handle_razorpay_payment_failed now e s)
dispatch now id refund_event e s = (ok tt, s)
dispatch now id unhandled_event e s = (ok tt, s)

unfoldable pub is_handled : EventType → Bool
is_handled unhandled_event = false
is_handled _ = true

abbrev pub settle_event :
    ℕ → List WebhookEvent → Result PaymentError (Unit {0}) × Shop → Received × Desk
settle_event k events (ok done, s) =
    (received, record { shop = s; events = update_by event_key k mark_processed events })
settle_event k events (err e, s) =
    (processing_failed, record { shop = s; events = update_by event_key k mark_unprocessed events })

-- Behind the checks of the call. The index on `eventId` refuses one that is stored.
unfoldable pub take_event : ℕ → ℕ → Arrival → Desk → Received × Desk
unfolding dispatch is_handled
take_event now id a d =
    if any (λ e. event_key e == a.event_id) d.events
    then (duplicate, d)
    else (let events = d.events ++ new_event a.event_id ∷ [] in
        if is_handled a.event_type
        then settle_event a.event_id events (dispatch now id a.event_type a.entity d.shop)
        else (
          ignored,
          record { shop = d.shop; events = update_by event_key a.event_id mark_processed events },
        ))

-- `down` says that the event cannot be stored.
unfoldable pub handle_razorpay_webhook : Bool → ℕ → ℕ → Arrival → Desk → Received × Desk
unfolding take_event
handle_razorpay_webhook down now id a d =
    if not a.signed
    then (missing_signature, d)
    else if not a.configured
    then (not_configured, d)
    else if not a.signature_valid
    then (invalid_signature, d)
    else if not a.payload_valid
    then (invalid_payload, d)
    else if down
    then (persistence_failed, d)
    else take_event now id a d
