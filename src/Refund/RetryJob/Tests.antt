-- ===== src/Refund/RetryJob/Tests.antt =====
-- Instances of the theorems on the retry job.
use lavish_fashion.Prelude.{ℕ, ◌≡◌, inr, ok, arith}
use lavish_fashion.Refund.Store.{Faults, no_faults, razorpay, gateway}
use lavish_fashion.Refund.State.{failed}
use lavish_fashion.Refund.Samples.{refund_in, accepting, one_refund}
use lavish_fashion.Refund.RetryJob.{no_results, retry_batch}
use lavish_fashion.Refund.RetryJob.Batch.{retry_batch_leaves}

abbrev always_up : ℕ → Faults
always_up k = no_faults

retry_batch_leaves_example :
    retry_batch always_up accepting 9
      (one_refund 10_000 (record (refund_in failed razorpay (gateway 499)) { retry_count = 3 }))
    ≡ (
      ok no_results,
      one_refund 10_000 (record (refund_in failed razorpay (gateway 499)) { retry_count = 3 }),
    )
retry_batch_leaves_example =
    retry_batch_leaves always_up accepting 9
      (one_refund 10_000 (record (refund_in failed razorpay (gateway 499)) { retry_count = 3 }))
      (inr (omega arith), tt)
