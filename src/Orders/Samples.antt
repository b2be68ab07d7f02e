-- ===== src/Orders/Samples.antt =====
-- An order for the tests of the modules on orders and loyalty points.
use lavish_fashion.Prelude.{false, none, some, [], ◌∷◌}
use lavish_fashion.Refund.Store.{cod_method}
use lavish_fashion.Orders.{
  Order, Shiprocket, placed, payment_pending, no_redemption, cancel_not_required, no_cancel_error,
}

abbrev pub no_shipment : Shiprocket
no_shipment = record {
  order_id = none;
  shipment_id = none;
  awb_code = none;
  reference_order_id = none;
  status = none;
  status_code = none;
  current_status = none;
  current_status_code = none;
  last_webhook_at = none;
  cancel_status = cancel_not_required;
  cancel_attempted_at = none;
  cancelled_at = none;
  cancel_error = no_cancel_error;
}

-- Two of one item, for 250 rupees, placed by user 4 at time 10.
abbrev pub a_purchase : Order
a_purchase = record {
  id = 1;
  user_id = some 4;
  items = record { id = 6; name = "Kurta"; quantity = 2 } ∷ [];
  amount = 25_000_000_000;
  status = placed;
  inventory_reserved = false;
  payment_method = cod_method;
  payment = false;
  payment_status = payment_pending;
  payment_verified_at = none;
  buy_now = false;
  razorpay_order_id = none;
  razorpay_payment_id = none;
  gateway_event_id = none;
  payment_authorized_at = none;
  payment_captured_at = none;
  amount_in_paise = 0;
  refunded_amount_in_paise = 0;
  refundable_amount_in_paise = 0;
  delivered_at = none;
  cancelled_at = none;
  shiprocket = no_shipment;
  points_awarded = 0;
  awarded_at = none;
  points_redeemed = 0;
  redemption_status = no_redemption;
  applied_at = none;
  released_at = none;
  review_reminder_queued_at = none;
  date = 10;
  created_at = some 10;
}
