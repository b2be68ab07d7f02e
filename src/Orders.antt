-- ===== src/Orders.antt =====
-- server/models/orderModel.js: the fields of an order that the loyalty points, the status and the
-- delivery are about. Ids are numbers. The child Status is server/services/orderStatusService.js.
pub mod World
pub mod Kept
pub mod Cancel
pub mod Delivery
pub mod Status
pub mod Requests
pub mod Effects
pub mod Moves
pub mod Final
pub mod Updates
pub mod Absorb
pub mod Ids
pub mod Broken
pub mod Once
pub mod Rewarded
pub mod Books
pub mod Samples
mod Tests
use Prim.Native.String.{String}
use lavish_fashion.Prelude.{ℕ, Bool, true, false, Option, List}
use lavish_fashion.Inventory.{OrderItem}
use lavish_fashion.Refund.Store.{PaymentMethod}

-- The texts that the schema of a status change admits (server/validation/schemas.js). The code
-- compares them trimmed and in lower case, which keeps them apart.
pub data OrderStatus : Type 0 where
  placed packing shipped out_for_delivery delivered cancelled : OrderStatus

-- `normalizeOrderStatus(a) === normalizeOrderStatus(b)`, and `a === b`.
unfoldable pub same_status : OrderStatus → OrderStatus → Bool
same_status placed placed = true
same_status packing packing = true
same_status shipped shipped = true
same_status out_for_delivery out_for_delivery = true
same_status delivered delivered = true
same_status cancelled cancelled = true
same_status _ _ = false

pub data PaymentStatus : Type 0 where
  payment_pending payment_paid payment_failed payment_cancelled : PaymentStatus

pub data RedemptionStatus : Type 0 where
  no_redemption reserved redeemed released : RedemptionStatus

pub data CancelStatus : Type 0 where
  cancel_not_required cancel_pending cancel_done cancel_failed : CancelStatus

-- `cancelError`: empty, the text about the configuration, or the message of the error with a given
-- number.
pub data CancelError : Type 0 where
  no_cancel_error not_configured : CancelError
  upstream_error : ℕ → CancelError

-- The subdocument `shiprocket`; an id of 0 and a missing one are `none`, and so is an empty text.
-- Codes are numbers, since they are only compared.
pub record Shiprocket : Type 0 where
  pub order_id : Option ℕ
  pub shipment_id : Option ℕ
  pub awb_code : Option ℕ
  pub reference_order_id : Option ℕ
  pub status : Option String
  pub status_code : Option ℕ
  pub current_status : Option String
  pub current_status_code : Option ℕ
  pub last_webhook_at : Option ℕ
  pub cancel_status : CancelStatus
  pub cancel_attempted_at : Option ℕ
  pub cancelled_at : Option ℕ
  pub cancel_error : CancelError

-- `user_id` is `none` for the empty text; `amount` counts hundred-millionths of a rupee.
pub record Order : Type 0 where
  pub id : ℕ
  pub user_id : Option ℕ
  pub items : List OrderItem
  pub amount : ℕ
  pub status : OrderStatus
  pub inventory_reserved : Bool
  pub payment_method : PaymentMethod
  pub payment : Bool
  pub payment_status : PaymentStatus
  pub payment_verified_at : Option ℕ
  pub buy_now : Bool
  pub razorpay_order_id : Option ℕ
  pub razorpay_payment_id : Option ℕ
  pub gateway_event_id : Option ℕ
  pub payment_authorized_at : Option ℕ
  pub payment_captured_at : Option ℕ
  pub amount_in_paise : ℕ
  pub refunded_amount_in_paise : ℕ
  pub refundable_amount_in_paise : ℕ
  pub delivered_at : Option ℕ
  pub cancelled_at : Option ℕ
  pub shiprocket : Shiprocket
  pub points_awarded : ℕ
  pub awarded_at : Option ℕ
  pub points_redeemed : ℕ
  pub redemption_status : RedemptionStatus
  pub applied_at : Option ℕ
  pub released_at : Option ℕ
  pub review_reminder_queued_at : Option ℕ
  pub date : ℕ
  pub created_at : Option ℕ

abbrev pub order_key : Order → ℕ
order_key o = o.id
