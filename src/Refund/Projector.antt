-- ===== src/Refund/Projector.antt =====
-- server/services/refundProjector.js: the refund fields of an order, recomputed from its refunds.
-- The realtime push at the end changes nothing that is modelled.
pub mod Laws
mod Tests
use lavish_fashion.Prelude.{
  ℕ, Bool, true, false, ◌||◌, ◌&&◌, Option, none, some, List, [], map, any, keep_if, sum_by, Exec,
  Result, ok, err, ltb, leb, if◌then◌else◌, ◌*◌,
}
use lavish_fashion.Money.{paisa, round_to_paise}
use lavish_fashion.Refund.State.{
  RefundState, initiated, pending, processed, failed, permanently_failed, same_state,
}
use lavish_fashion.Refund.Errors.{Thrown, database_error}
use lavish_fashion.Refund.Store.{
  Db, Order, Refund, Item, RefundStatus, no_refund, refund_pending, refund_partial,
  refund_processed, refund_failed, LegacyRefund, LegacyStatus, legacy_pending, legacy_processed,
  legacy_failed, GatewayId, none_refunded, partly_refunded, fully_refunded, find_order,
  update_order, refunds_of,
}

unfoldable pub legacy_status : RefundState → LegacyStatus
legacy_status initiated = legacy_pending
legacy_status pending = legacy_pending
legacy_status processed = legacy_processed
legacy_status failed = legacy_failed
legacy_status permanently_failed = legacy_failed

-- buildLegacyRefundEntry: `unset` for the gateway id stands for `refund_<id>`.
unfoldable pub build_legacy_refund_entry : Refund → LegacyRefund
unfolding legacy_status
build_legacy_refund_entry r = record {
  refund_id = r.gateway_refund_id;
  document_id = r.id;
  payment_id = r.payment_id;
  amount = r.amount_in_paise * paisa;
  status = legacy_status r.state;
  initiated_by = r.initiated_by;
  idempotency_key = r.idempotency_key;
  created_at = r.refund_initiated_at;
  processed_at = r.refund_processed_at;
  failure_reason = r.failure_reason;
}

abbrev pub is_processed : Refund → Bool
is_processed r = same_state r.state processed

abbrev pub is_in_flight : Refund → Bool
is_in_flight r = same_state r.state initiated || same_state r.state pending

abbrev pub has_failed : Refund → Bool
has_failed r = same_state r.state failed || same_state r.state permanently_failed

unfoldable pub processed_paise : List Refund → ℕ
unfolding same_state
processed_paise refunds = sum_by (λ r. r.amount_in_paise) (keep_if is_processed refunds)

unfoldable pub status_of : ℕ → ℕ → List Refund → RefundStatus
unfolding same_state
status_of order_amount paid refunds =
    if ltb 0 paid && leb order_amount paid
    then refund_processed
    else if ltb 0 paid
    then refund_partial
    else if any is_in_flight refunds
    then refund_pending
    else if any has_failed refunds
    then refund_failed
    else no_refund

unfoldable pub compute_order_totals : ℕ → List Refund → ℕ × RefundStatus
unfolding processed_paise status_of
compute_order_totals order_amount refunds =
    let paid = processed_paise refunds in (paid, status_of order_amount paid refunds)

unfoldable pub order_amount_of : Order → ℕ
unfolding round_to_paise
order_amount_of order =
    if ltb 0 order.amount_in_paise then order.amount_in_paise else round_to_paise order.amount

unfoldable pub project_item : RefundStatus → Item → Item
project_item refund_processed item = record item {
  refunded_amount_paise = item.price_paise;
  refund_status = fully_refunded;
}
project_item refund_partial item = record item { refund_status = partly_refunded }
project_item _ item = record item { refunded_amount_paise = 0; refund_status = none_refunded }

unfoldable pub project_order : ℕ → List Refund → Order → Order
unfolding compute_order_totals order_amount_of project_item build_legacy_refund_entry
project_order now refunds order =
    let (paid, status) = compute_order_totals (order_amount_of order) refunds in
    record order {
      refunded_amount_in_paise = paid;
      refunded_amount = paid * paisa;
      refund_status = status;
      refund_last_updated_at = some now;
      refunds = map build_legacy_refund_entry refunds;
      items = map (project_item status) order.items;
    }

-- The projected order, or `none` when the order is not there.
unfoldable pub project : Bool → ℕ → ℕ → Exec Db Thrown (Option Order)
unfolding project_order
project fault now k db = elim (find_order k db) [
  | none ↦ (ok none, db)
  | some order ↦ if fault then (err database_error, db) else (
    ok (some (project_order now (refunds_of k db) order)),
    update_order k (project_order now (refunds_of k db)) db,
  )
]
