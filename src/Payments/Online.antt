-- ===== src/Payments/Online.antt =====
-- placeOrderRazorpay of server/controllers/orderController.js, from the price on.
use lavish_fashion.Prelude.{
  ℕ, ◌+◌, ◌*◌, ◌==◌, true, Option, none, some, [], ◌∷◌, ◌++◌, Result, ok, err, if◌then◌else◌,
}
use lavish_fashion.Orders.World.{World}
use lavish_fashion.Payments.{Attempt, attempt_pending, attempt_failed, Shop, set_attempt}
use lavish_fashion.Payments.Attempts.{redemption_of, mark_payment_attempt_as_not_completed}
use lavish_fashion.Payments.Checkout.{
  Basket, CheckoutFaults, CheckoutError, nothing_to_pay, create_failed, later_failed,
  gateway_failed, give_back_points, reserve_points, reserve_stock, undo,
}

abbrev pub attempt_lifetime_ms : ℕ
attempt_lifetime_ms = 24 * 60 * 60 * 1000

-- The attempt that `buildPaymentAttemptData` describes, with its id and the default of its schema.
abbrev pub attempt_of : ℕ → ℕ → Basket → Attempt
attempt_of now id b = record {
  id = id;
  user_id = b.user_id;
  items = b.items;
  amount = b.amount;
  buy_now = b.buy_now;
  status = attempt_pending;
  inventory_reserved = true;
  points_redeemed = b.points_redeemed;
  redemption_status = redemption_of b.points_redeemed;
  razorpay_order_id = none;
  razorpay_payment_id = none;
  gateway_event_id = none;
  created_order_id = none;
  date = now;
  expires_at = now + attempt_lifetime_ms;
}

abbrev pub in_world : (World → World) → Shop → Shop
in_world f s = record s { world = f s.world }

-- The catch where the attempt was stored: what is reserved is given back, and the attempt marked as
-- failed.
unfoldable pub fail_attempt : ℕ → Basket → Shop → Shop
unfolding mark_payment_attempt_as_not_completed
fail_attempt id b s =
    mark_payment_attempt_as_not_completed attempt_failed none none id (in_world (undo b) s)

-- The catch where no attempt was stored: it gives back in both of its parts.
abbrev pub undo_twice : Basket → Shop → Shop
undo_twice b s = in_world (undo b) (in_world (undo b) s)

abbrev pub name_attempt : ℕ → Attempt → Attempt
name_attempt k a = record a { razorpay_order_id = some k }

unfoldable pub answer_attempt :
    CheckoutFaults → ℕ → Basket → Option ℕ → Shop → Result CheckoutError ℕ × Shop
unfolding fail_attempt
answer_attempt faults id b none s = (err gateway_failed, fail_attempt id b s)
answer_attempt faults id b (some k) s =
    let named = set_attempt id (name_attempt k) s in
    if faults.later_fails then (err later_failed, fail_attempt id b named) else (ok id, named)

-- With both reservations made.
unfoldable pub store_attempt :
    CheckoutFaults → ℕ → ℕ → Basket → Shop → Result CheckoutError ℕ × Shop
unfolding answer_attempt
store_attempt faults now id b s =
    if faults.create_fails
    then (err create_failed, undo_twice b s)
    else answer_attempt faults id b faults.gateway
        (record s { attempts = s.attempts ++ attempt_of now id b ∷ [] })

-- The catch where the stock could not be reserved: the points are given back in both of its parts.
abbrev pub drop_points_twice : Basket → World → World
drop_points_twice b w = give_back_points b (give_back_points b w)

unfoldable pub with_stock :
    CheckoutFaults
    → ℕ
    → ℕ
    → Basket
    → Shop
    → Result CheckoutError (Unit {0}) × World
    → Result CheckoutError ℕ × Shop
unfolding store_attempt
with_stock faults now id b s (ok done, w) = store_attempt faults now id b (record s { world = w })
with_stock faults now id b s (err e, w) = (err e, record s { world = drop_points_twice b w })

unfoldable pub with_points :
    CheckoutFaults
    → ℕ
    → ℕ
    → Basket
    → Shop
    → Result CheckoutError (Unit {0}) × World
    → Result CheckoutError ℕ × Shop
unfolding with_stock
with_points faults now id b s (ok done, w) = with_stock faults now id b s (reserve_stock faults b w)
with_points faults now id b s (err e, w) = (err e, record s { world = w })

unfoldable pub place_order_razorpay :
    CheckoutFaults → ℕ → ℕ → Basket → Shop → Result CheckoutError ℕ × Shop
unfolding with_points
place_order_razorpay faults now id b s =
    if b.amount == 0
    then (err nothing_to_pay, s)
    else with_points faults now id b s (reserve_points b s.world)
