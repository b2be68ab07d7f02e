-- ===== src/Orders/World.antt =====
-- The collections that the status and the payment of orders change together: users, orders and
-- transactions as the loyalty points have them, the products, and what was sent elsewhere.
use lavish_fashion.Prelude.{ℕ, Option, List, [], ◌∷◌, ◌++◌, find_by}
use lavish_fashion.Inventory.{Product}
use lavish_fashion.Orders.{Order, order_key}
use lavish_fashion.Loyalty.{Store}
use lavish_fashion.Loyalty.Points.{write_order}

-- The calls of the mail, message, shipping and cart code, with the ids they are about.
pub data Sent : Type 0 where
  out_for_delivery_message delivered_message placed_message shipment_request : ℕ → Sent
  order_delivered_mail : Option ℕ → ℕ → Sent
  review_request_mail referral_referrer_mail referral_new_customer_mail : Option ℕ → Sent
  cart_cleared : Option ℕ → Sent

pub record World : Type 0 where
  pub loyalty : Store
  pub products : List Product
  pub sent : List Sent

abbrev pub find_order : ℕ → World → Option Order
find_order k w = find_by order_key k w.loyalty.orders

abbrev pub set_order : ℕ → (Order → Order) → World → World
set_order k f w = record w { loyalty = write_order k f w.loyalty }

abbrev pub send : Sent → World → World
send x w = record w { sent = w.sent ++ x ∷ [] }
