-- ===== src/Refund/Router.antt =====
-- server/services/refundRouterService.js and the two strategies of
-- server/services/refundStrategies/. The Razorpay SDK is the parameter `call`.
pub mod Laws
use lavish_fashion.Prelude.{
  ℕ, Bool, true, false, ◌&&◌, ◌||◌, Option, none, some, List, [], ◌∷◌, any, Result, ok, err, ◌==◌,
  leb, ltb, if◌then◌else◌,
}
use lavish_fashion.Refund.Errors.{
  Thrown, typed, plain_error, internal_error, gateway_error, razorpay_not_configured,
  refund_no_payment_id, refund_router_no_order, refund_strategy_not_found,
  refund_unsupported_payment_method,
}
use lavish_fashion.Refund.Store.{
  Channel, razorpay, bank_transfer, wallet, GatewayId, gateway, manual, Order, Refund,
  PaymentMethod, razorpay_method, cod_method, other_method,
}

channel_of : PaymentMethod → Result Thrown Channel
channel_of razorpay_method = ok razorpay
channel_of cod_method = ok bank_transfer
channel_of other_method = err (typed (plain_error 400 refund_unsupported_payment_method))

unfoldable pub choose_channel : Option Order → Result Thrown Channel
unfolding channel_of
choose_channel none = err (typed (internal_error refund_router_no_order))
choose_channel (some order) = channel_of order.payment_method

-- The key that goes to the gateway: the refund's own, or `<key>:retry:<count>`.
pub data GatewayKey : Type 0 where
  first_key : ℕ → GatewayKey
  retry_key : ℕ → ℕ → GatewayKey

pub record Charge : Type 0 where
  pub payment : ℕ
  pub amount_in_paise : ℕ
  pub key : GatewayKey

-- What the SDK call gives: a response, with or without an id, or an error with its HTTP status,
-- and whether its code is one of the five network codes.
pub data GatewayReply : Type 0 where
  response : Option ℕ → GatewayReply
  failure : Option ℕ → Bool → GatewayReply
  gateway_failure : Bool → GatewayReply

abbrev retryable_status_codes : List ℕ
retryable_status_codes = 408 ∷ 425 ∷ 429 ∷ 500 ∷ 502 ∷ 503 ∷ 504 ∷ []

unfoldable pub is_retryable_http_status : Option ℕ → Bool
is_retryable_http_status none = false
is_retryable_http_status (some status) =
    if any (λ c. c == status) retryable_status_codes then true else leb 500 status && ltb status 600

-- translateError; an error that is a GatewayError already goes through.
unfoldable pub translate_error : Option ℕ → Bool → Thrown
unfolding is_retryable_http_status
translate_error status network = typed (gateway_error (is_retryable_http_status status || network))

pub record StrategyResult : Type 0 where
  pub gateway_refund_id : GatewayId
  pub skip_pending_transition : Bool

first_some : Option ℕ → Option ℕ → Option ℕ
first_some (some a) _ = some a
first_some none b = b

accept : GatewayReply → Result Thrown StrategyResult
unfolding translate_error
accept (response none) = err (typed (gateway_error false))
accept (response (some k)) =
    ok (record { gateway_refund_id = gateway k; skip_pending_transition = false })
accept (failure status network) = err (translate_error status network)
accept (gateway_failure again) = err (typed (gateway_error again))

-- Razorpay as configured on the server, or not.
pub record Gateway : Type 0 where
  pub is_configured : Bool
  pub call : Charge → GatewayReply

charge_payment : Gateway → Refund → GatewayKey → Option ℕ → Result Thrown StrategyResult
unfolding accept
charge_payment g refund key none = err (typed (plain_error 400 refund_no_payment_id))
charge_payment g refund key (some payment) =
    accept
      (g.call (record { payment = payment; amount_in_paise = refund.amount_in_paise; key = key }))

-- razorpayRefundStrategy.execute
unfoldable pub execute_razorpay :
    Gateway → Refund → Order → GatewayKey → Result Thrown StrategyResult
unfolding charge_payment first_some
execute_razorpay g refund order key =
    if g.is_configured
    then charge_payment g refund key (first_some refund.payment_id order.razorpay_payment_id)
    else err (typed (plain_error 503 razorpay_not_configured))

-- manualBankTransferStrategy.execute
unfoldable pub execute_manual : Refund → Result Thrown StrategyResult
execute_manual refund =
    ok (record { gateway_refund_id = manual refund.id; skip_pending_transition = true })

-- The strategy registered for a channel; `choose_channel` never picks the wallet.
unfoldable pub execute :
    Gateway → Channel → Refund → Order → GatewayKey → Result Thrown StrategyResult
unfolding execute_razorpay execute_manual
execute g razorpay refund order key = execute_razorpay g refund order key
execute g bank_transfer refund order key = execute_manual refund
execute g wallet refund order key = err (typed (internal_error refund_strategy_not_found))
