-- ===== src/Payments/Placed.antt =====
-- Orders that wait for their payment in server/controllers/orderController.js: they are marked as
-- paid or as failed.
use lavish_fashion.Prelude.{ℕ, ltb, true, false, Option, none, some, if◌then◌else◌}
use lavish_fashion.Loyalty.Points.{
  finalize_reserved_loyalty_redemption, release_reserved_loyalty_redemption,
}
use lavish_fashion.Orders.{Order, payment_paid, payment_failed, released}
use lavish_fashion.Orders.World.{World, find_order, set_order, send, shipment_request}
use lavish_fashion.Orders.Cancel.{release_inventory_for_order}
use lavish_fashion.Payments.{PaymentFields, or_else, in_paise}
use lavish_fashion.Payments.Attempts.{clear_cart_for_completed_order}

abbrev pub captured_or : Option ℕ → Option ℕ → Option ℕ
captured_or none old = old
captured_or (some t) old = some t

-- `paymentFields` has a time of capture only where the gateway says so.
abbrev pub with_payment : PaymentFields → Order → Order
with_payment f o = record o {
  razorpay_order_id = some f.order_id;
  razorpay_payment_id = f.payment_id;
  payment_captured_at = captured_or f.captured_at o.payment_captured_at;
}

abbrev pub mark_paid : ℕ → Option ℕ → PaymentFields → Order → Order → Order
mark_paid now event fields read o = with_payment fields (record o {
  payment = true;
  payment_status = payment_paid;
  payment_verified_at = some now;
  inventory_reserved = true;
  gateway_event_id = or_else event read.gateway_event_id;
  amount_in_paise = in_paise read.amount;
  refunded_amount_in_paise = 0;
  refundable_amount_in_paise = in_paise read.amount;
})

finalize_updated : ℕ → Option Order → World → World
finalize_updated now none w = w
finalize_updated now (some o) w = record w {
  loyalty = (finalize_reserved_loyalty_redemption now o w.loyalty).1;
}

ship_updated : Option Order → World → World
ship_updated none w = w
ship_updated (some o) w = send (shipment_request o.id) w

unfoldable pub mark_order_as_paid : ℕ → Option ℕ → PaymentFields → Order → World → World
unfolding finalize_updated ship_updated clear_cart_for_completed_order
mark_order_as_paid now event fields o w =
    if o.payment
    then w
    else (let marked = set_order o.id (mark_paid now event fields o) w in
        let updated = find_order o.id marked in
        ship_updated updated
          (clear_cart_for_completed_order o (finalize_updated now updated marked)))

abbrev pub mark_failed : ℕ → Option ℕ → PaymentFields → Order → Order → Order
mark_failed now event fields read o = with_payment fields (record o {
  payment_status = payment_failed;
  inventory_reserved = false;
  gateway_event_id = or_else event read.gateway_event_id;
  redemption_status = if ltb 0 read.points_redeemed then released else read.redemption_status;
  released_at = if ltb 0 read.points_redeemed then some now else read.released_at;
})

unfoldable pub mark_order_as_failed : ℕ → Option ℕ → PaymentFields → Order → World → World
unfolding release_inventory_for_order
mark_order_as_failed now event fields o w =
    if o.payment
    then w
    else (let stock = release_inventory_for_order o w in
        set_order o.id (mark_failed now event fields o)
          (record stock { loyalty = (release_reserved_loyalty_redemption now o stock.loyalty).1 }))
