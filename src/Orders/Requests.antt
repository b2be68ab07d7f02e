-- ===== src/Orders/Requests.antt =====
-- The two requests of server/controllers/orderController.js that change the status of an order: by
-- the admin panel and by the user who cancels. The bodies of the answers are left out.
use lavish_fashion.Prelude.{
  ℕ, ◌+◌, ◌*◌, ltb, leb, ◌==◌, Bool, false, not, ◌&&◌, Option, none, some, Result, ok, err,
  if◌then◌else◌,
}
use lavish_fashion.Orders.{Order, OrderStatus, same_status, placed, cancelled}
use lavish_fashion.Orders.World.{World, find_order}
use lavish_fashion.Orders.Cancel.{Setting, perform_order_cancellation}
use lavish_fashion.Inventory.{or_default}
use lavish_fashion.Orders.Status.{TransitionError, apply_order_status_transition}

pub data Reply : Type 0 where
  done already_cancelled order_not_found : Reply
  refused : TransitionError → Reply
  too_far too_late : Reply

abbrev pub reply_of : Result TransitionError Bool → Reply
reply_of (ok rewards) = done
reply_of (err e) = refused e

unfoldable pub update_order_status : Setting → ℕ → ℕ → OrderStatus → World → Reply × World
unfolding apply_order_status_transition
update_order_status setting now k status w = elim (find_order k w) [
  | none ↦ (order_not_found, w)
  | some o ↦
      let (r, w') = apply_order_status_transition setting now o status none w in (reply_of r, w')
]

abbrev pub order_cancellation_window_ms : ℕ
order_cancellation_window_ms = 6 * 60 * 60 * 1000

abbrev pub resolve_order_created_at_ms : Order → ℕ
resolve_order_created_at_ms o = or_default o.date o.created_at

unfoldable pub is_order_within_cancellation_window : ℕ → Order → Bool
is_order_within_cancellation_window now o =
    ltb 0 (resolve_order_created_at_ms o)
    && leb now (resolve_order_created_at_ms o + order_cancellation_window_ms)

abbrev pub belongs_to : ℕ → Option ℕ → Bool
belongs_to user none = false
belongs_to user (some k) = k == user

unfoldable pub cancel_user_order : Setting → ℕ → ℕ → ℕ → World → Reply × World
unfolding is_order_within_cancellation_window perform_order_cancellation same_status
cancel_user_order setting now user k w = elim (find_order k w) [
  | none ↦ (order_not_found, w)
  | some o ↦
      if not (belongs_to user o.user_id)
      then (order_not_found, w)
      else if same_status o.status cancelled
      then (already_cancelled, w)
      else if not (same_status o.status placed)
      then (too_far, w)
      else if not (is_order_within_cancellation_window now o)
      then (too_late, w)
      else (done, (perform_order_cancellation setting now o w).1)
]
