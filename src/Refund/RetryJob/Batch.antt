-- ===== src/Refund/RetryJob/Batch.antt =====
-- What a batch of retries covers, and what it leaves out.
use lavish_fashion.Prelude.{
  ℕ, suc, ◌+◌, ◌≤◌, ◌≡◌, ◌⊎◌, inl, inr, refl, false, List, [], ◌∷◌, All, keep_if, length,
  length-take-le, Result, ok, arith,
}
use lavish_fashion.Refund.State.{failed, same_state}
use lavish_fashion.Refund.Errors.{Thrown}
use lavish_fashion.Refund.Store.{Db, Refund, Faults}
use lavish_fashion.Refund.Router.{Gateway}
use lavish_fashion.Refund.Service.Retry.{retry}
use lavish_fashion.Refund.RetryJob.{
  is_due, sort_due, find_due_refunds, Results, count_result, no_results, retry_each, retry_batch,
}

-- The attempts are those that succeeded, failed or gave up.
abbrev pub AddsUp : Results → Type 0
AddsUp c = c.attempted ≡ c.succeeded + c.failed + c.exhausted

count_result-AddsUp :
    (r : Result Thrown Refund) (c : Results)
    → AddsUp c
    → AddsUp (count_result r c) × ((count_result r c).attempted ≡ suc c.attempted)
unfolding count_result
count_result-AddsUp r c h = ground arith

module _ (faults : ℕ → Faults) (g : Gateway) (now : ℕ) where
  retry_each-count :
      (rs : List Refund) (c : Results) (db : Db)
      → AddsUp c
      → AddsUp (retry_each faults g now rs c db).0
        × ((retry_each faults g now rs c db).0.attempted ≡ c.attempted + length rs)
  unfolding retry_each
  retry_each-count [] c db h = (h, omega arith)
  retry_each-count (r ∷ rs) c db h =
      let (after, db') = retry (faults r.id) g now r.id db in
      let (adds, one_more) = count_result-AddsUp after c h in
      let (adds', total) = retry_each-count rs (count_result after c) db' adds in
      (adds', omega (arith, total, one_more))

  -- A batch ends with a count for every refund that was due: as many attempts as due refunds, at
  -- most fifty, each of them a success, a failure or the end of the retries, whatever the gateway
  -- answers and whatever writes fail.
  pub retry_batch_counts :
      (db : Db)
      → (c : Results) × ((retry_batch faults g now db).0 ≡ ok c)
        × (c.attempted ≡ length (find_due_refunds now db))
        × (c.attempted ≤ 50)
        × AddsUp c
  unfolding retry_batch find_due_refunds
  retry_batch_counts db =
      let due = find_due_refunds now db in
      let (adds, total) = retry_each-count due no_results db refl in
      (
        (retry_each faults g now due no_results db).0,
        refl,
        omega (arith, total),
        omega (arith, total, length-take-le 50 (sort_due (keep_if (is_due now) db.refunds))),
        adds,
      )

  not_due :
      (r : Refund)
      → (same_state r.state failed ≡ false) ⊎ (r.max_retries ≤ r.retry_count)
      → is_due now r ≡ false
  unfolding is_due
  not_due r (inl alive) = rw alive
  not_due r (inr used_up) = ground (arith, used_up)

  keep_none : (rs : List Refund) → All (λ r. is_due now r ≡ false) rs → keep_if (is_due now) rs ≡ []
  keep_none [] h = refl
  keep_none (r ∷ rs) h = rw h.0 (keep_none rs h.1)

  none_due :
      (rs : List Refund)
      → All (λ r. (same_state r.state failed ≡ false) ⊎ (r.max_retries ≤ r.retry_count)) rs
      → All (λ r. is_due now r ≡ false) rs
  none_due [] h = tt
  none_due (r ∷ rs) h = (not_due r h.0, none_due rs h.1)

  -- If every refund that is failed has used up its retries, the batch attempts nothing and leaves
  -- the database as it is: refunds that could only be given up are not given up.
  pub retry_batch_leaves :
      (db : Db)
      → All (λ r. (same_state r.state failed ≡ false) ⊎ (r.max_retries ≤ r.retry_count)) db.refunds
      → retry_batch faults g now db ≡ (ok no_results, db)
  unfolding retry_batch find_due_refunds
  retry_batch_leaves db h = rw (keep_none db.refunds (none_due db.refunds h))
