-- ===== src/Refund/Errors.antt =====
-- server/utils/refundErrors.js: the typed errors of the refund subsystem, by status code, code and
-- retryability. Messages, causes and details are left out.
use lavish_fashion.Prelude.{ℕ, Bool, true, false}

pub data ErrorCode : Type 0 where
  refund_error insufficient_refundable_amount invalid_refund_transition refund_gateway_error
        refund_permission_denied refund_validation_error refund_not_found
        wallet_insufficient_balance ledger_immutable :
      ErrorCode
  refund_order_unpaid refund_initiate_unexpected refund_not_manual refund_not_retryable
        refund_manual_not_retryable :
      ErrorCode
  razorpay_not_configured refund_no_payment_id refund_router_no_order
        refund_unsupported_payment_method refund_strategy_not_found :
      ErrorCode
  ledger_invalid_type ledger_invalid_source ledger_invalid_amount ledger_missing_order : ErrorCode

pub record RefundError : Type 0 where
  pub status_code : ℕ
  pub code : ErrorCode
  pub retryable : Bool

-- `new RefundError(…, { statusCode, code })`
abbrev pub plain_error : ℕ → ErrorCode → RefundError
plain_error status c = record { status_code = status; code = c; retryable = false }

-- The default status of the base class.
abbrev pub internal_error : ErrorCode → RefundError
internal_error = plain_error 500

abbrev pub insufficient_refundable_amount_error : RefundError
insufficient_refundable_amount_error = plain_error 409 insufficient_refundable_amount

abbrev pub invalid_refund_transition_error : RefundError
invalid_refund_transition_error = plain_error 409 invalid_refund_transition

abbrev pub gateway_error : Bool → RefundError
gateway_error again = record { status_code = 502; code = refund_gateway_error; retryable = again }

abbrev pub refund_permission_error : RefundError
refund_permission_error = plain_error 403 refund_permission_denied

abbrev pub refund_validation_error_of : RefundError
refund_validation_error_of = plain_error 400 refund_validation_error

abbrev pub refund_not_found_error : RefundError
refund_not_found_error = plain_error 404 refund_not_found

abbrev pub wallet_insufficient_balance_error : RefundError
wallet_insufficient_balance_error = plain_error 409 wallet_insufficient_balance

abbrev pub ledger_immutability_error : RefundError
ledger_immutability_error = internal_error ledger_immutable

-- What a call may throw: an error of the hierarchy, or any other (`raw`), of which the code reads
-- only whether it is the duplicate key of a unique index.
pub data Thrown : Type 0 where
  typed : RefundError → Thrown
  duplicate_key database_error other_error : Thrown

unfoldable pub is_refund_error : Thrown → Bool
is_refund_error (typed e) = true
is_refund_error _ = false
