-- ===== src/Refund/Samples.antt =====
-- Orders, refunds and a gateway for the tests of the refund subsystem.
use lavish_fashion.Prelude.{ℕ, true, none, some, [], ◌∷◌, pos}
use lavish_fashion.Refund.State.{RefundState, initiated, pending, failed}
use lavish_fashion.Refund.Store.{
  Db, Order, Refund, Channel, GatewayId, gateway, manual, razorpay, bank_transfer, razorpay_method,
  no_refund, none_refunded,
}
use lavish_fashion.Refund.Router.{Gateway, response}
use lavish_fashion.Refund.Service.Initiate.{InitiateInput}

-- Rs 100, paid online, with a given amount left to refund.
abbrev pub order_with : ℕ → Order
order_with left = record {
  id = 1;
  payment = true;
  payment_method = razorpay_method;
  razorpay_payment_id = some 77;
  amount = 10_000_000_000;
  amount_in_paise = 10_000;
  refundable_amount_in_paise = left;
  refunded_amount_in_paise = 0;
  refunded_amount = 0;
  refund_status = no_refund;
  refund_last_updated_at = none;
  refunds = [];
  items =
      record { price_paise = 10_000; refunded_amount_paise = 0; refund_status = none_refunded }
      ∷ [];
}

-- Refund 1 of the order, of the whole amount.
abbrev pub refund_in : RefundState → Channel → GatewayId → Refund
refund_in state channel gateway_id = record {
  id = 1;
  order_id = 1;
  payment_id = some 77;
  amount_in_paise = 10_000;
  state = state;
  channel = channel;
  notes = "";
  initiated_by = "admin@example.com";
  idempotency_key = 41;
  gateway_refund_id = gateway_id;
  manual_reference = "";
  marked_processed_by = "";
  retry_count = 0;
  max_retries = 3;
  next_retry_at = none;
  failure_reason = none;
  refund_initiated_at = 3;
  refund_processed_at = none;
  permanently_failed_at = none;
}

abbrev pub untouched : Db
untouched = record {
  orders = order_with 10_000 ∷ [];
  refunds = [];
  ledger = [];
  audit = [];
  next_id = 1;
}

-- One refund of the whole amount, with what is then left of the order.
abbrev pub one_refund : ℕ → Refund → Db
one_refund left r = record {
  orders = order_with left ∷ [];
  refunds = r ∷ [];
  ledger = [];
  audit = [];
  next_id = 2;
}

abbrev pub in_pending : Db
in_pending = one_refund 0 (refund_in pending razorpay (gateway 499))

abbrev pub in_failed : Db
in_failed = one_refund 10_000 (refund_in failed razorpay (gateway 499))

abbrev pub by_transfer : Db
by_transfer = one_refund 0 (refund_in initiated bank_transfer (manual 1))

-- It accepts every refund, under id 500.
abbrev pub accepting : Gateway
accepting = record { is_configured = true; call = λ _. response (some 500) }

abbrev pub request : ℕ → ℕ → InitiateInput
request key paise = record {
  order_id = some 1;
  amount = some (pos paise);
  idempotency_key = some key;
  admin_email = some "admin@example.com";
  notes = "";
}
