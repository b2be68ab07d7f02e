-- ===== src/Refund/Service/Settle/Tests.antt =====
-- Runs of the webhook and of the manual settlement, and instances of their theorems.
use lavish_fashion.Prelude.{ℕ, ◌+◌, ◌≡◌, refl, ok, some, if◌then◌else◌, ◌==◌, arith}
use lavish_fashion.Refund.State.{RefundState, pending, failed, can_move}
use lavish_fashion.Refund.Store.{
  Db, Refund, gateway, no_faults, razorpay, same_gateway_id, breaks_index,
}
use lavish_fashion.Refund.Held.{held}
use lavish_fashion.Refund.Samples.{in_pending, in_failed, refund_in}
use lavish_fashion.Refund.Service.Settle.{
  RefundEntity, status_failed, status_pending, state_of_gateway_status, process_webhook_update,
}
use lavish_fashion.Refund.Service.Settle.Webhook.{gained, lost, process_webhook_update-held}

abbrev bounced : RefundEntity
bounced = record { id = gateway 499; status = status_failed; failure_text = "bank account closed" }

abbrev late_pending : RefundEntity
late_pending = record { id = gateway 499; status = status_pending; failure_text = "" }

abbrev online : RefundState → Refund
online s = refund_in s razorpay (gateway 499)

-- A pending refund that bounces gives its amount back.
process_webhook_update-held_example :
    (r' : Refund) × (db' : Db) × (process_webhook_update no_faults 9 (some bounced) in_pending
      ≡ (ok (some r'), db'))
    × (r'.state ≡ failed)
    × ((j : ℕ)
        → held j db' + (if 1 == j then lost pending failed 10_000 else 0)
          ≡ held j in_pending + (if 1 == j then gained pending failed 10_000 else 0))
unfolding same_gateway_id breaks_index state_of_gateway_status can_move
process_webhook_update-held_example =
    process_webhook_update-held 9 bounced failed (online pending) 0 in_pending refl refl
      (omega arith) refl refl refl refl refl

-- A late `pending` event for a refund that failed: its amount is held again, and left to refund too.
late_event : held 1 (process_webhook_update no_faults 9 (some late_pending) in_failed).1 ≡ 20_000
unfolding process_webhook_update
late_event = refl
