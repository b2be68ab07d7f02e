-- ===== src/Refund/Service/Reserve.antt =====
-- The helpers at the top of server/services/refundService.js: the reservation of an order's
-- refundable amount and the state changes of a refund.
use lavish_fashion.Prelude.{
  ℕ, ◌+◌, ◌-◌, ◌*◌, ◌^◌, Bool, ◌&&◌, none, some, Exec, Result, ok, err, ltb, leb, ◌==◌,
  if◌then◌else◌,
}
use lavish_fashion.Money.{round_to_paise}
use lavish_fashion.Refund.State.{RefundState, processed, permanently_failed, same_state, can_move}
use lavish_fashion.Refund.Errors.{
  Thrown, typed, refund_not_found_error, insufficient_refundable_amount_error,
  invalid_refund_transition_error, database_error,
}
use lavish_fashion.Refund.Store.{Db, Order, Refund, find_order, update_order}

-- RETRY_BACKOFF_BASE_MS * 2 ** retryCount after now.
abbrev pub retry_backoff_base_ms : ℕ
retry_backoff_base_ms = 600_000

unfoldable pub compute_next_retry_at : ℕ → ℕ → ℕ
compute_next_retry_at now retry_count = now + retry_backoff_base_ms * 2 ^ retry_count

unfoldable pub needs_seed : Order → Bool
needs_seed o =
    o.payment
    && (o.refunded_amount_in_paise == 0)
    && (o.refundable_amount_in_paise == 0)
    && ltb 0 o.amount

unfoldable pub seed_order : Order → Order
unfolding round_to_paise
seed_order o =
    let paise = round_to_paise o.amount in
    record o { amount_in_paise = paise; refundable_amount_in_paise = paise }

-- The read, the test, and the guarded write, whose filter is the test again (without the amount).
unfoldable pub lazy_seed_refundable_paise : ℕ → Db → Db
unfolding needs_seed seed_order
lazy_seed_refundable_paise k db = elim (find_order k db) [
  | none ↦ db
  | some o ↦ if needs_seed o then update_order k seed_order db else db
]

abbrev pub take_refundable : ℕ → Order → Order
take_refundable a o = record o { refundable_amount_in_paise = o.refundable_amount_in_paise - a }

-- The guarded `$inc`, whose failure is told apart by reading the order again.
unfoldable pub reserve_guarded : ℕ → ℕ → Exec Db Thrown Order
reserve_guarded k a db = elim (find_order k db) [
  | none ↦ (err (typed refund_not_found_error), db)
  | some o ↦
      if leb a o.refundable_amount_in_paise
      then (ok (take_refundable a o), update_order k (take_refundable a) db)
      else (err (typed insufficient_refundable_amount_error), db)
]

unfoldable pub reserve_refundable_amount : ℕ → ℕ → Exec Db Thrown Order
unfolding lazy_seed_refundable_paise reserve_guarded
reserve_refundable_amount k a db = reserve_guarded k a (lazy_seed_refundable_paise k db)

abbrev pub give_refundable : ℕ → Order → Order
give_refundable a o = record o { refundable_amount_in_paise = o.refundable_amount_in_paise + a }

unfoldable pub release_refundable_amount : Bool → ℕ → ℕ → Exec Db Thrown (Unit {0})
release_refundable_amount fault k a db =
    if fault then (err database_error, db) else (ok tt, update_order k (give_refundable a) db)

abbrev pub stamp : ℕ → RefundState → Refund → Refund
stamp now processed r = record r { state = processed; refund_processed_at = some now }
stamp now permanently_failed r = record r {
  state = permanently_failed;
  permanently_failed_at = some now;
}
stamp now s r = record r { state = s }

-- transitionRefundState
unfoldable pub transition_refund_state : ℕ → Refund → RefundState → Result Thrown Refund
unfolding same_state can_move
transition_refund_state now r next =
    if same_state r.state next
    then ok r
    else if can_move r.state next
    then ok (stamp now next r)
    else err (typed invalid_refund_transition_error)
