-- ===== src/Payments.antt =====
-- server/models/paymentAttemptModel.js and the payments of server/controllers/orderController.js: a
-- Razorpay checkout reserves stock and points for an attempt, which becomes an order when it is
-- paid. The children are Attempts (what becomes of an attempt), Placed (orders of the older kind,
-- which exist before they are paid), Webhook, and Checkout (what is reserved).
pub mod Attempts
pub mod Placed
pub mod Webhook
pub mod Intake
pub mod Checkout
pub mod Online
pub mod Goods
pub mod Settled
pub mod Attempted
pub mod Late
pub mod Events
pub mod AtOnce
pub mod Twice
pub mod Short
mod Tests
use lavish_fashion.Prelude.{
  ℕ, ◌+◌, ◌/◌, Bool, not, leb, keep_if, Option, none, some, List, [], ◌∷◌, ◌++◌, find_by, update_by,
}
use lavish_fashion.Inventory.{OrderItem}
use lavish_fashion.Orders.{RedemptionStatus, Order}
use lavish_fashion.Orders.World.{World}

pub data AttemptStatus : Type 0 where
  attempt_pending attempt_paid attempt_failed attempt_cancelled attempt_expired order_created :
      AttemptStatus

-- The schema is strict and has no field for the times of payment, redemption and release, so what
-- the code writes there is dropped.
pub record Attempt : Type 0 where
  pub id : ℕ
  pub user_id : Option ℕ
  pub items : List OrderItem
  pub amount : ℕ
  pub buy_now : Bool
  pub status : AttemptStatus
  pub inventory_reserved : Bool
  pub points_redeemed : ℕ
  pub redemption_status : RedemptionStatus
  pub razorpay_order_id : Option ℕ
  pub razorpay_payment_id : Option ℕ
  pub gateway_event_id : Option ℕ
  pub created_order_id : Option ℕ
  pub date : ℕ
  pub expires_at : ℕ

abbrev pub attempt_key : Attempt → ℕ
attempt_key a = a.id

pub record Shop : Type 0 where
  pub world : World
  pub attempts : List Attempt

abbrev pub find_attempt : ℕ → Shop → Option Attempt
find_attempt k s = find_by attempt_key k s.attempts

abbrev pub set_attempt : ℕ → (Attempt → Attempt) → Shop → Shop
set_attempt k f s = record s { attempts = update_by attempt_key k f s.attempts }

-- `paymentFields`, where it is not empty.
pub record PaymentFields : Type 0 where
  pub order_id : ℕ
  pub payment_id : Option ℕ
  pub captured_at : Option ℕ

-- `a || b`, for ids.
abbrev pub or_else : Option ℕ → Option ℕ → Option ℕ
or_else none b = b
or_else (some a) b = some a

-- `Math.round(amount * 100)`.
abbrev pub in_paise : ℕ → ℕ
in_paise amount = (amount + 500_000) / 1_000_000

-- An order put behind the others.
abbrev pub store_order : Order → World → World
store_order o w = record w { loyalty = record w.loyalty { orders = w.loyalty.orders ++ o ∷ [] } }
