-- ===== src/Refund/Service/Retry/Effect.antt =====
-- What a retry does to a failed refund and to the money of its order.
use lavish_fashion.Prelude.{
  ℕ, ◌+◌, ◌≤◌, ◌<◌, ◌≡◌, refl, sym, ap, ◌∙◌, true, false, some, update_by, find_by-update_by_self,
  ok, err, if◌then◌else◌, ◌==◌, leb, le→leb, arith, any,
}
use lavish_fashion.Refund.State.{pending, failed, permanently_failed, can_move}
use lavish_fashion.Refund.Errors.{Thrown}
use lavish_fashion.Refund.Store.{
  Db, Order, Refund, refund_key, find_order, find_refund, razorpay, razorpay_method, no_faults,
  same_gateway_id, audit_permanently_failed, audit_retry_succeeded, audit_retry_failed, write_audit,
  find_refund_or_throw, message_of,
}
use lavish_fashion.Refund.Router.{Gateway, StrategyResult, retry_key, choose_channel, execute}
use lavish_fashion.Refund.Service.Reserve.{compute_next_retry_at, stamp, transition_refund_state}
use lavish_fashion.Refund.Held.{share, held, IsClear}
use lavish_fashion.Refund.Funds.{
  IsClear-same, IsClear-with, IsClear-update, save_refund_found, live_total-save, project-up,
}
use lavish_fashion.Refund.Service.Settle.Webhook.{transition_refund_state_moves}
use lavish_fashion.Refund.Service.Retry.{
  check_retryable, order_or_throw, give_up, keep_gateway_id, resubmit, wrap_retry, failed_again,
  note_failure, settle_retry, try_again, retry,
}

find_stored :
    (r : Refund) (db : Db)
    → find_refund r.id db ≡ some r
    → find_refund_or_throw r.id db ≡ (ok r, db)
unfolding find_refund_or_throw
find_stored r db stored = rw (stored, find_refund_or_throw)

order_there :
    (k : ℕ) (o : Order) (db : Db) → find_order k db ≡ some o → order_or_throw k db ≡ (ok o, db)
unfolding order_or_throw
order_there k o db there = rw (there, order_or_throw)

checked : (r : Refund) → r.state ≡ failed → r.channel ≡ razorpay → check_retryable r ≡ ok r
unfolding check_retryable
checked r f c = ground arith

channel_chosen :
    (o : Order) → o.payment_method ≡ razorpay_method → choose_channel (some o) ≡ ok razorpay
unfolding choose_channel
channel_chosen o m = ground arith

-- The document of one more attempt.
abbrev pub again : Refund → Refund
again r = record r { retry_count = r.retry_count + 1; state = pending }

moves_again :
    (now : ℕ) (r : Refund)
    → r.state ≡ failed
    → transition_refund_state now (record r { retry_count = r.retry_count + 1 }) pending
      ≡ ok (again r)
unfolding transition_refund_state
moves_again now r f = ground arith

exhausts : (r : Refund) → r.state ≡ failed → can_move r.state permanently_failed ≡ true
unfolding can_move
exhausts r h = ground arith

failed_again_fields :
    (now : ℕ) (e : Thrown) (r : Refund)
    → r.state ≡ pending
    → ((failed_again now e r).id ≡ r.id)
      × ((failed_again now e r).idempotency_key ≡ r.idempotency_key)
      × ((failed_again now e r).gateway_refund_id ≡ r.gateway_refund_id)
      × ((failed_again now e r).state ≡ failed)
unfolding failed_again
failed_again_fields now e r h = ground arith

failed_share :
    (now : ℕ) (e : Thrown) (r : Refund) (j : ℕ)
    → r.state ≡ pending
    → share j (failed_again now e r) ≡ 0
unfolding failed_again
failed_share now e r j h = ground arith

-- A refund that failed once more: all that it differs in from the one that failed before.
abbrev pub refused_again : ℕ → Thrown → Refund → Refund
refused_again now e r = record r {
  retry_count = r.retry_count + 1;
  state = failed;
  failure_reason = some (message_of e);
  next_retry_at = some (compute_next_retry_at now (r.retry_count + 1));
}

failed_again-again :
    (now : ℕ) (e : Thrown) (r : Refund) → failed_again now e (again r) ≡ refused_again now e r
unfolding failed_again can_move
failed_again-again now e r = refl

lt→leb_false : (a b : ℕ) → a < b → leb b a ≡ false
lt→leb_false a b h = ground arith

module _ (g : Gateway) (now : ℕ) (r : Refund) (o : Order) (db : Db)
    (stored : find_refund r.id db ≡ some r) (clear : IsClear r db.refunds)
    (is_failed : r.state ≡ failed) (online : r.channel ≡ razorpay)
    (there : find_order r.order_id db ≡ some o)
    (paid_online : o.payment_method ≡ razorpay_method) where
  abbrev db_again : Db
  db_again = record db { refunds = update_by refund_key r.id (λ _. again r) db.refunds }

  -- A failed Razorpay refund that is stored, clear of the unique indexes and of an order that is
  -- there and was paid through Razorpay, with the database up and attempts left: if the gateway
  -- accepts the call, under an id that no refund has, the retry leaves it pending with one more
  -- retry counted. Its amount is held again without a reservation, so what its order has left or
  -- held grows by the amount, and no other order's money changes.
  pub retry_accepted :
      (s : StrategyResult)
      → r.retry_count < r.max_retries
      → execute g razorpay (again r) o (retry_key r.idempotency_key (r.retry_count + 1)) ≡ ok s
      → any
          (λ x.
            same_gateway_id x.gateway_refund_id
              (keep_gateway_id s.gateway_refund_id r.gateway_refund_id))
          db.refunds
        ≡ false
      → (r' : Refund) × (db' : Db) × (retry no_faults g now r.id db ≡ (ok r', db'))
        × (r'.state ≡ pending)
        × (r'.retry_count ≡ r.retry_count + 1)
        × ((j : ℕ) → held j db' ≡ held j db + (if r.order_id == j then r.amount_in_paise else 0))
  unfolding retry
  retry_accepted s left accepted unused =
      let a = again r in
      let first_clear = IsClear-same r a db.refunds refl refl refl clear in
      let saved = save_refund_found a db first_clear in
      let g' = keep_gateway_id s.gateway_refund_id r.gateway_refund_id in
      let b : Refund = record a { gateway_refund_id = g' } in
      let second_clear =
        IsClear-update b a r.id db.refunds refl
          (IsClear-with r b g' db.refunds refl refl refl unused clear) in
      let saved' = save_refund_found b db_again second_clear in
      let db2 = record db_again { refunds = update_by refund_key r.id (λ _. b) db_again.refunds } in
      let (q, os, projected, keeps) = project-up now r.order_id db2 in
      let db3 = record db2 { orders = os } in
      (
        b,
        (write_audit {E = Thrown} audit_retry_succeeded b "system" db3).1,
        (rw (find_stored r db stored, retry)
            (rw (checked r is_failed online, order_there r.order_id o db there, retry)
              (rw
                (
                  lt→leb_false r.retry_count r.max_retries left,
                  moves_again now r is_failed,
                  saved,
                  channel_chosen o paid_online,
                  try_again,
                )
                (rw (accepted, saved', projected, resubmit, write_audit, settle_retry))))),
        refl,
        refl,
        λ j.
            unfold write_audit in
            ground (
              arith,
              keeps j,
              live_total-save j a r db.refunds stored,
              live_total-save j b a db_again.refunds
                  (find_by-update_by_self refund_key r.id (λ _. a) db.refunds r refl stored),
            ),
      )

  -- For a failed Razorpay refund as above (stored, clear, its order there and paid through Razorpay,
  -- attempts left, the database up): if the gateway call fails, the retry throws the wrapped error.
  -- The refund is stored as failed, with one more retry counted, the message of the error and the
  -- time of the next retry that the new count gives, and otherwise as it was. No order's money
  -- changes.
  pub retry_refused :
      (e : Thrown)
      → r.retry_count < r.max_retries
      → execute g razorpay (again r) o (retry_key r.idempotency_key (r.retry_count + 1)) ≡ err e
      → (db' : Db) × (retry no_faults g now r.id db ≡ (err (wrap_retry e), db'))
        × (find_refund r.id db' ≡ some (refused_again now e r))
        × ((j : ℕ) → held j db' ≡ held j db)
  unfolding retry
  retry_refused e left refused =
      let a = again r in
      let first_clear = IsClear-same r a db.refunds refl refl refl clear in
      let saved = save_refund_found a db first_clear in
      let (i, k, g', s) = failed_again_fields now e a refl in
      let b = failed_again now e a in
      let here' = find_by-update_by_self refund_key r.id (λ _. a) db.refunds r refl stored in
      let second_clear =
        IsClear-update b a r.id db.refunds (sym i) (IsClear-same r b db.refunds i k g' clear) in
      let saved' = save_refund_found b db_again second_clear in
      let db2 = record db_again { refunds = update_by refund_key b.id (λ _. b) db_again.refunds } in
      (
        (write_audit {E = Thrown} audit_retry_failed b "system" db2).1,
        (rw (find_stored r db stored, retry)
            (rw (checked r is_failed online, order_there r.order_id o db there, retry)
              (rw
                (
                  lt→leb_false r.retry_count r.max_retries left,
                  moves_again now r is_failed,
                  saved,
                  channel_chosen o paid_online,
                  try_again,
                )
                (rw (refused, resubmit, settle_retry) (rw (saved', note_failure, write_audit)))))),
        find_by-update_by_self refund_key r.id (λ _. b) db_again.refunds a i here'
            ∙ ap some (failed_again-again now e r),
        λ j.
            unfold write_audit in
            ground (
              arith,
              live_total-save j a r db.refunds stored,
              live_total-save j b a db_again.refunds (rw i here'),
              failed_share now e a j refl,
            ),
      )

  -- For a failed Razorpay refund (stored, clear, its order there and paid through Razorpay, the
  -- database up) with no attempt left, the retry gives the refund up for good with its count as it
  -- was, and no order's money changes.
  pub retry_exhausted :
      r.max_retries ≤ r.retry_count
      → (r' : Refund) × (db' : Db) × (retry no_faults g now r.id db ≡ (ok r', db'))
        × (r'.state ≡ permanently_failed)
        × (r'.retry_count ≡ r.retry_count)
        × ((j : ℕ) → held j db' ≡ held j db)
  unfolding retry
  retry_exhausted none_left =
      let dead = stamp now permanently_failed r in
      let moves = transition_refund_state_moves now r permanently_failed (exhausts r is_failed) in
      let saved = save_refund_found dead db (IsClear-same r dead db.refunds refl refl refl clear) in
      let db1 = record db { refunds = update_by refund_key r.id (λ _. dead) db.refunds } in
      let (q, os, projected, keeps) = project-up now r.order_id db1 in
      let db2 = record db1 { orders = os } in
      (
        dead,
        (write_audit {E = Thrown} audit_permanently_failed dead "system" db2).1,
        (rw (find_stored r db stored, retry)
            (rw (checked r is_failed online, order_there r.order_id o db there, retry)
              (rw (
                le→leb r.max_retries r.retry_count none_left,
                moves,
                saved,
                projected,
                give_up,
                write_audit,
              )))),
        refl,
        refl,
        λ j.
            unfold write_audit in
            ground (arith, keeps j, live_total-save j dead r db.refunds stored),
      )
