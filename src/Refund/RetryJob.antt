-- ===== src/Refund/RetryJob.antt =====
-- server/jobs/refundRetryJob.js: the retry of the refunds that are due, in a locked job.
pub mod Batch
mod Tests
use lavish_fashion.Prelude.{
  ℕ, ◌+◌, Bool, true, false, not, ◌&&◌, Option, none, some, List, [], ◌∷◌, keep_if, take, Exec,
  Result, ok, err, ltb, leb, if◌then◌else◌,
}
use lavish_fashion.Refund.State.{failed, permanently_failed, same_state}
use lavish_fashion.Refund.Errors.{Thrown}
use lavish_fashion.Refund.Store.{Db, Refund, Faults}
use lavish_fashion.Refund.Router.{Gateway}
use lavish_fashion.Refund.Service.Settle.{is_bank_transfer}
use lavish_fashion.Refund.Service.Retry.{retry}
use lavish_fashion.Lock.{Lock}
use lavish_fashion.Lock.Job.{JobResult, Site, run_locked_job}

abbrev pub batch_size : ℕ
batch_size = 50

has_come : ℕ → Option ℕ → Bool
has_come now none = true
has_come now (some t) = leb t now

-- The filter of the query.
unfoldable pub is_due : ℕ → Refund → Bool
unfolding same_state has_come is_bank_transfer
is_due now r =
    same_state r.state failed
    && not (is_bank_transfer r.channel)
    && ltb r.retry_count r.max_retries
    && has_come now r.next_retry_at

-- The order of the sort: null comes first.
comes_before : Option ℕ → Option ℕ → Bool
comes_before none b = true
comes_before (some a) none = false
comes_before (some a) (some b) = leb a b

insert_due : Refund → List Refund → List Refund
unfolding comes_before
insert_due r [] = r ∷ []
insert_due r (x ∷ xs) =
    let rest = insert_due r xs in
    if comes_before r.next_retry_at x.next_retry_at then r ∷ x ∷ xs else x ∷ rest

sort_due : List Refund → List Refund
unfolding insert_due
sort_due [] = []
sort_due (r ∷ rs) = insert_due r (sort_due rs)

unfoldable pub find_due_refunds : ℕ → Db → List Refund
unfolding is_due sort_due
find_due_refunds now db = take batch_size (sort_due (keep_if (is_due now) db.refunds))

pub record Results : Type 0 where
  pub attempted : ℕ
  pub succeeded : ℕ
  pub failed : ℕ
  pub exhausted : ℕ

abbrev pub no_results : Results
no_results = record { attempted = 0; succeeded = 0; failed = 0; exhausted = 0 }

count_result : Result Thrown Refund → Results → Results
unfolding same_state
count_result (ok after) c =
    if same_state after.state permanently_failed
    then record c { attempted = c.attempted + 1; exhausted = c.exhausted + 1 }
    else record c { attempted = c.attempted + 1; succeeded = c.succeeded + 1 }
count_result (err e) c = record c { attempted = c.attempted + 1; failed = c.failed + 1 }

-- The loop; `faults` says for each refund which writes of its retry fail.
module _ (faults : ℕ → Faults) (g : Gateway) (now : ℕ) where
  retry_each : List Refund → Results → Db → Results × Db
  unfolding retry count_result
  retry_each [] c db = (c, db)
  retry_each (r ∷ rs) c db =
      let (after, db') = retry (faults r.id) g now r.id db in
      retry_each rs (count_result after c) db'

  unfoldable pub retry_batch : Db → Result Thrown Results × Db
  unfolding retry_each find_due_refunds
  retry_batch db = let (c, db') = retry_each (find_due_refunds now db) no_results db in (ok c, db')

  -- `later` is the time at which the job ends, `meanwhile` what others do to the locks before.
  pub run_refund_retry_job_once :
      Bool → (List Lock → List Lock) → ℕ → ℕ → ℕ → ℕ → Site Db → JobResult Thrown Results × Site Db
  unfolding run_locked_job retry_batch
  run_refund_retry_job_once release_fails meanwhile later job_key owner ttl =
      run_locked_job release_fails meanwhile now later job_key owner ttl retry_batch
