-- ===== src/Refund/Service/Retry/Tests.antt =====
-- Instances of the theorems on retries.
use lavish_fashion.Prelude.{
  ℕ, ◌+◌, ◌≡◌, refl, ok, err, false, if◌then◌else◌, ◌==◌, arith, some, none,
}
use lavish_fashion.Refund.State.{pending, failed}
use lavish_fashion.Refund.Errors.{typed, plain_error, razorpay_not_configured}
use lavish_fashion.Refund.Store.{
  Db, Refund, gateway, no_faults, razorpay, same_gateway_id, breaks_index, find_refund, message_of,
}
use lavish_fashion.Refund.Router.{Gateway, execute, response}
use lavish_fashion.Refund.Held.{held}
use lavish_fashion.Refund.Samples.{in_failed, refund_in, order_with, accepting}
use lavish_fashion.Refund.Service.Reserve.{compute_next_retry_at}
use lavish_fashion.Refund.Service.Retry.{retry, keep_gateway_id, wrap_retry}
use lavish_fashion.Refund.Service.Retry.Effect.{retry_accepted, retry_refused}

abbrev stuck : Refund
stuck = refund_in failed razorpay (gateway 499)

abbrev off : Gateway
off = record { is_configured = false; call = λ _. response none }

retry_accepted_example :
    (r' : Refund) × (db' : Db) × (retry no_faults accepting 9 1 in_failed ≡ (ok r', db'))
    × (r'.state ≡ pending)
    × (r'.retry_count ≡ 1)
    × ((j : ℕ) → held j db' ≡ held j in_failed + (if 1 == j then 10_000 else 0))
unfolding breaks_index execute same_gateway_id keep_gateway_id
retry_accepted_example =
    retry_accepted accepting 9 stuck (order_with 10_000) in_failed refl refl refl refl refl refl
      (record { gateway_refund_id = gateway 500; skip_pending_transition = false }) (omega arith)
      refl refl

retry_refused_example :
    (db' : Db) × (retry no_faults off 9 1 in_failed
      ≡ (err (wrap_retry (typed (plain_error 503 razorpay_not_configured))), db'))
    × (find_refund 1 db'
        ≡ some (record stuck {
          retry_count = 1;
          state = failed;
          failure_reason = some (message_of (typed (plain_error 503 razorpay_not_configured)));
          next_retry_at = some (compute_next_retry_at 9 1);
        }))
    × ((j : ℕ) → held j db' ≡ held j in_failed)
unfolding breaks_index execute
retry_refused_example =
    retry_refused off 9 stuck (order_with 10_000) in_failed refl refl refl refl refl refl
      (typed (plain_error 503 razorpay_not_configured)) (omega arith) refl

abbrev worn_out : Refund
worn_out = record stuck { retry_count = 3 }
