-- ===== src/Payments/Checkout.antt =====
-- placeOrderCOD and placeOrderRazorpay of server/controllers/orderController.js, from the price on:
-- what a checkout reserves, stores and, when something throws, gives back. What is priced is the
-- subject of Checkout.Total, and the replay of a request that of Idempotency. Flags and the gateway
-- say what throws.
use lavish_fashion.Prelude.{
  ℕ, ltb, Bool, true, false, Option, none, some, List, Result, ok, err, if◌then◌else◌,
}
use lavish_fashion.Inventory.{
  OrderItem, ReserveError, reserve_inventory_for_items, release_inventory_for_items,
}
use lavish_fashion.Loyalty.Points.{
  LoyaltyError, reserve_loyalty_redemption, release_user_reserved_loyalty_points,
}
use lavish_fashion.Refund.Store.{cod_method}
use lavish_fashion.Orders.{Order, placed, payment_pending}
use lavish_fashion.Orders.World.{World}
use lavish_fashion.Payments.{store_order}
use lavish_fashion.Payments.Attempts.{
  redemption_of, fresh_shipment, clear_cart_for_completed_order, announce,
}

-- What pricing makes of the request.
pub record Basket : Type 0 where
  pub user_id : Option ℕ
  pub items : List OrderItem
  pub amount : ℕ
  pub points_redeemed : ℕ
  pub buy_now : Bool

-- What fails in a call: the stock of an item cannot be written, the order or the attempt cannot be
-- stored, something after the order is stored throws, and what the gateway answers.
pub record CheckoutFaults : Type 0 where
  pub stock_down : OrderItem → Bool
  pub create_fails : Bool
  pub later_fails : Bool
  pub gateway : Option ℕ

pub data CheckoutError : Type 0 where
  no_points : LoyaltyError → CheckoutError
  no_stock : ReserveError → CheckoutError
  nothing_to_pay create_failed later_failed gateway_failed : CheckoutError

abbrev pub drop_points : Basket → World → World
drop_points b w = record w {
  loyalty = (release_user_reserved_loyalty_points b.user_id b.points_redeemed w.loyalty).1;
}

abbrev pub drop_stock : Basket → World → World
drop_stock b w = record w { products = release_inventory_for_items b.items w.products }

abbrev pub reserved_or : {A : Type 0} → Result LoyaltyError A → Result CheckoutError (Unit {0})
reserved_or (ok a) = ok tt
reserved_or (err e) = err (no_points e)

abbrev pub stocked_or : Result ReserveError (Unit {0}) → Result CheckoutError (Unit {0})
stocked_or (ok done) = ok tt
stocked_or (err e) = err (no_stock e)

-- `if (reservedLoyaltyPoints > 0)`.
unfoldable pub give_back_points : Basket → World → World
give_back_points b w = if ltb 0 b.points_redeemed then drop_points b w else w

-- The points, where some are redeemed. Nothing is given back when they cannot be reserved.
unfoldable pub reserve_points : Basket → World → Result CheckoutError (Unit {0}) × World
reserve_points b w =
    if ltb 0 b.points_redeemed
    then (let (r, loyalty) = reserve_loyalty_redemption b.user_id b.points_redeemed w.loyalty in
        (reserved_or r, record w { loyalty = loyalty }))
    else (ok tt, w)

unfoldable pub reserve_stock :
    CheckoutFaults → Basket → World → Result CheckoutError (Unit {0}) × World
reserve_stock faults b w =
    let (r, products) = reserve_inventory_for_items faults.stock_down b.items w.products in
    (stocked_or r, record w { products = products })

-- The order that `buildOrderData` describes, with its id.
abbrev pub cod_order : ℕ → ℕ → Basket → Order
cod_order now id b = record {
  id = id;
  user_id = b.user_id;
  items = b.items;
  amount = b.amount;
  status = placed;
  inventory_reserved = true;
  payment_method = cod_method;
  payment = false;
  payment_status = payment_pending;
  payment_verified_at = none;
  buy_now = b.buy_now;
  razorpay_order_id = none;
  razorpay_payment_id = none;
  gateway_event_id = none;
  payment_authorized_at = none;
  payment_captured_at = none;
  amount_in_paise = 0;
  refunded_amount_in_paise = 0;
  refundable_amount_in_paise = 0;
  delivered_at = none;
  cancelled_at = none;
  shiprocket = fresh_shipment;
  points_awarded = 0;
  awarded_at = none;
  points_redeemed = b.points_redeemed;
  redemption_status = redemption_of b.points_redeemed;
  applied_at = none;
  released_at = none;
  review_reminder_queued_at = none;
  date = now;
  created_at = some now;
}

-- The catch of placeOrderCOD after both reservations.
abbrev pub undo : Basket → World → World
undo b w = give_back_points b (drop_stock b w)

-- With both reservations made. `later_fails` says that the answer cannot be stored.
unfoldable pub store_cod_order :
    CheckoutFaults → ℕ → ℕ → Basket → World → Result CheckoutError ℕ × World
unfolding give_back_points clear_cart_for_completed_order
store_cod_order faults now id b w =
    if faults.create_fails
    then (err create_failed, undo b w)
    else (let o = cod_order now id b in
        let w' = announce id (clear_cart_for_completed_order o (store_order o w)) in
        if faults.later_fails then (err later_failed, undo b w') else (ok id, w'))

abbrev pub after_points :
    (World → Result CheckoutError ℕ × World)
    → Result CheckoutError (Unit {0}) × World
    → Result CheckoutError ℕ × World
after_points rest (ok done, w) = rest w
after_points rest (err e, w) = (err e, w)

abbrev pub after_stock :
    (World → Result CheckoutError ℕ × World)
    → (World → World)
    → Result CheckoutError (Unit {0}) × World
    → Result CheckoutError ℕ × World
after_stock rest back (ok done, w) = rest w
after_stock rest back (err e, w) = (err e, back w)

unfoldable pub place_order_cod :
    CheckoutFaults → ℕ → ℕ → Basket → World → Result CheckoutError ℕ × World
unfolding reserve_points reserve_stock store_cod_order give_back_points
place_order_cod faults now id b w =
    after_points
      (λ w1.
        after_stock (store_cod_order faults now id b) (give_back_points b)
          (reserve_stock faults b w1))
      (reserve_points b w)
