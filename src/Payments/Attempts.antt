-- ===== src/Payments/Attempts.antt =====
-- What becomes of a payment attempt in server/controllers/orderController.js: an order, or nothing,
-- and then what it reserved is given back. No call of the database fails here.
use lavish_fashion.Prelude.{
  ℕ, ltb, Bool, true, false, not, ◌&&◌, Option, none, some, Exec, ok, err, if◌then◌else◌,
}
use lavish_fashion.Inventory.{release_inventory_for_items}
use lavish_fashion.Refund.Store.{razorpay_method}
use lavish_fashion.Loyalty.Points.{
  is_reserved, release_user_reserved_loyalty_points, finalize_reserved_loyalty_redemption,
}
use lavish_fashion.Orders.{
  Order, placed, RedemptionStatus, reserved, redeemed, released, no_redemption, payment_paid,
  Shiprocket, cancel_not_required, no_cancel_error,
}
use lavish_fashion.Orders.World.{
  World, find_order, send, placed_message, shipment_request, cart_cleared,
}
use lavish_fashion.Payments.{
  Attempt, AttemptStatus, order_created, Shop, find_attempt, set_attempt, PaymentFields, or_else,
  in_paise, store_order,
}

-- The stock first.
unfoldable pub give_back_stock : Attempt → World → World
give_back_stock a w =
    if a.inventory_reserved
    then record w { products = release_inventory_for_items a.items w.products }
    else w

unfoldable pub give_back_points : Attempt → World → World
unfolding is_reserved
give_back_points a w =
    if ltb 0 a.points_redeemed && is_reserved a.redemption_status
    then record w {
      loyalty = (release_user_reserved_loyalty_points a.user_id a.points_redeemed w.loyalty).1;
    }
    else w

-- The update takes the status of the redemption from the attempt that was read.
abbrev pub mark_given_back : Attempt → Attempt → Attempt
mark_given_back read a = record a {
  inventory_reserved = false;
  redemption_status = if ltb 0 read.points_redeemed then released else read.redemption_status;
}

unfoldable pub release_resources_for_payment_attempt : Attempt → Shop → Shop
unfolding give_back_stock give_back_points
release_resources_for_payment_attempt a s =
    set_attempt a.id (mark_given_back a)
      (record s { world = give_back_points a (give_back_stock a s.world) })

abbrev pub with_fields : Option PaymentFields → Attempt → Attempt
with_fields none a = a
with_fields (some f) a = record a {
  razorpay_order_id = some f.order_id;
  razorpay_payment_id = f.payment_id;
}

abbrev pub mark_not_completed :
    AttemptStatus → Option ℕ → Option PaymentFields → Attempt → Attempt → Attempt
mark_not_completed status event fields read a =
    with_fields fields
      (record a { status = status; gateway_event_id = or_else event read.gateway_event_id })

unfoldable pub is_order_created : AttemptStatus → Bool
is_order_created order_created = true
is_order_created _ = false

-- Of the attempt that is passed only the id is used.
unfoldable pub mark_payment_attempt_as_not_completed :
    AttemptStatus → Option ℕ → Option PaymentFields → ℕ → Shop → Shop
unfolding release_resources_for_payment_attempt is_order_created
mark_payment_attempt_as_not_completed status event fields k s = elim (find_attempt k s) [
  | none ↦ s
  | some a ↦
      if is_order_created a.status
      then s
      else set_attempt k (mark_not_completed status event fields a)
          (release_resources_for_payment_attempt a s)
]

abbrev pub fresh_shipment : Shiprocket
fresh_shipment = record {
  order_id = none;
  shipment_id = none;
  awb_code = none;
  reference_order_id = none;
  status = none;
  status_code = none;
  current_status = none;
  current_status_code = none;
  last_webhook_at = none;
  cancel_status = cancel_not_required;
  cancel_attempted_at = none;
  cancelled_at = none;
  cancel_error = no_cancel_error;
}

abbrev pub redemption_of : ℕ → RedemptionStatus
redemption_of points = if ltb 0 points then reserved else no_redemption

abbrev pub field_order_id : Option PaymentFields → Option ℕ
field_order_id none = none
field_order_id (some f) = some f.order_id

abbrev pub field_payment_id : Option PaymentFields → Option ℕ
field_payment_id none = none
field_payment_id (some f) = f.payment_id

-- The document that `orderModel.create` stores, with its id. Its reference for Shiprocket is left
-- out, since it is random for an attempt that has none.
abbrev pub order_of : ℕ → ℕ → Option ℕ → Option PaymentFields → Attempt → Order
order_of now id event fields a = record {
  id = id;
  user_id = a.user_id;
  items = a.items;
  amount = a.amount;
  status = placed;
  inventory_reserved = true;
  payment_method = razorpay_method;
  payment = true;
  payment_status = payment_paid;
  payment_verified_at = some now;
  buy_now = a.buy_now;
  razorpay_order_id = or_else (field_order_id fields) a.razorpay_order_id;
  razorpay_payment_id = or_else (field_payment_id fields) a.razorpay_payment_id;
  gateway_event_id = or_else event a.gateway_event_id;
  payment_authorized_at = none;
  payment_captured_at = none;
  amount_in_paise = in_paise a.amount;
  refunded_amount_in_paise = 0;
  refundable_amount_in_paise = in_paise a.amount;
  delivered_at = none;
  cancelled_at = none;
  shiprocket = fresh_shipment;
  points_awarded = 0;
  awarded_at = none;
  points_redeemed = a.points_redeemed;
  redemption_status = redemption_of a.points_redeemed;
  applied_at = none;
  released_at = none;
  review_reminder_queued_at = none;
  date = a.date;
  created_at = some now;
}

unfoldable pub clear_cart_for_completed_order : Order → World → World
clear_cart_for_completed_order o w = if o.buy_now then w else send (cart_cleared o.user_id) w

abbrev pub mark_order_created : ℕ → Option ℕ → Option PaymentFields → Attempt → Attempt → Attempt
mark_order_created id event fields read a = with_fields fields (record a {
  status = order_created;
  created_order_id = some id;
  inventory_reserved = false;
  redemption_status = if ltb 0 read.points_redeemed then redeemed else read.redemption_status;
  gateway_event_id = or_else event read.gateway_event_id;
})

abbrev pub announce : ℕ → World → World
announce k w = send (shipment_request k) (send (placed_message k) w)

-- Behind the guards, for the attempt as read: the order is stored, its points are spent, the cart is
-- cleared and the attempt closed.
unfoldable pub create_order : ℕ → ℕ → Option ℕ → Option PaymentFields → Attempt → Shop → Shop
unfolding clear_cart_for_completed_order
create_order now id event fields a s =
    let o = order_of now id event fields a in
    let stored = store_order o s.world in
    let spent = record stored {
      loyalty = (finalize_reserved_loyalty_redemption now o stored.loyalty).1;
    } in
    let closed =
      set_attempt a.id (mark_order_created id event fields a)
        (record s { world = clear_cart_for_completed_order o spent }) in
    record closed { world = announce id closed.world }

pub data PaymentError : Type 0 where
  resources_not_reserved : PaymentError

-- The order that was created before, announced once more.
unfoldable pub again : ℕ → Option Order → Shop → Option ℕ × Shop
again k none s = (none, s)
again k (some o) s = (some k, record s { world = announce k s.world })

-- `id` is the id that a new order gets.
unfoldable pub create_order_from_payment_attempt :
    ℕ → ℕ → Option ℕ → Option PaymentFields → ℕ → Exec Shop PaymentError (Option ℕ)
unfolding create_order again
create_order_from_payment_attempt now id event fields k s = elim (find_attempt k s) [
  | none ↦ (ok none, s)
  | some a ↦ elim a.created_order_id [
    | some j ↦ let (answer, s') = again j (find_order j s.world) s in (ok answer, s')
    | none ↦
        if not a.inventory_reserved
        then (err resources_not_reserved, s)
        else (ok (some id), create_order now id event fields a s)
  ]
]
