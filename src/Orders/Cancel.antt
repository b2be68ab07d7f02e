-- ===== src/Orders/Cancel.antt =====
-- performOrderCancellation of server/services/orderStatusService.js. An order is passed as the caller
-- read it, so it may be older than the stored one. The call of the Shiprocket API is a parameter, as
-- is whether it is configured. No call of the database fails here.
use lavish_fashion.Prelude.{
  ℕ, ltb, Bool, true, false, not, ◌&&◌, Option, none, some, Result, ok, err, if◌then◌else◌,
}
use lavish_fashion.Inventory.{release_inventory_for_items}
use lavish_fashion.Orders.{
  Order, same_status, delivered, cancelled, payment_cancelled, Shiprocket, CancelStatus,
  CancelError, cancel_pending, cancel_done, cancel_failed, no_cancel_error, not_configured,
  upstream_error,
}
use lavish_fashion.Orders.World.{World, find_order, set_order}
use lavish_fashion.Loyalty.Points.{or_now, is_reserved, release_reserved_loyalty_redemption}
use lavish_fashion.Loyalty.Rewards.{RewardRules}

-- Only for an order that says it has stock reserved.
unfoldable pub release_inventory_for_order : Order → World → World
release_inventory_for_order o w =
    if o.inventory_reserved
    then set_order o.id (λ x. record x { inventory_reserved = false })
        (record w { products = release_inventory_for_items o.items w.products })
    else w

-- What the calls of a run are about: the Shiprocket API, which answers or throws the error with a
-- number, and the environment.
pub record Setting : Type 0 where
  pub configured : Bool
  pub cancel_upstream : ℕ → Result ℕ (Unit {0})
  pub rewards : RewardRules

abbrev pub set_shiprocket : ℕ → (Shiprocket → Shiprocket) → World → World
set_shiprocket k f = set_order k (λ x. record x { shiprocket = f x.shiprocket })

unfoldable pub is_cancel_done : CancelStatus → Bool
is_cancel_done cancel_done = true
is_cancel_done _ = false

unfoldable pub note_attempt : ℕ → CancelError → Shiprocket → Shiprocket
note_attempt now e s = record s {
  cancel_status = cancel_pending;
  cancel_attempted_at = some now;
  cancel_error = e;
}

unfoldable pub note_answer : ℕ → Result ℕ (Unit {0}) → Shiprocket → Shiprocket
note_answer now (ok done) s = record s {
  cancel_status = cancel_done;
  cancelled_at = some now;
  cancel_error = no_cancel_error;
}
note_answer now (err e) s = record s {
  cancel_status = cancel_failed;
  cancel_error = upstream_error e;
}

-- Failures are stored and not thrown.
unfoldable pub cancel_shiprocket_for_order : Setting → ℕ → Order → World → World
unfolding is_cancel_done note_attempt note_answer
cancel_shiprocket_for_order setting now o w = elim o.shiprocket.order_id [
  | none ↦ w
  | some k ↦
      if is_cancel_done o.shiprocket.cancel_status
      then w
      else if not setting.configured
      then set_shiprocket o.id (note_attempt now not_configured) w
      else set_shiprocket o.id (note_answer now (setting.cancel_upstream k))
          (set_shiprocket o.id (note_attempt now no_cancel_error) w)
]

unfoldable pub should_release_loyalty : Order → Bool
unfolding same_status is_reserved
should_release_loyalty o =
    not (same_status o.status delivered)
    && ltb 0 o.points_redeemed
    && is_reserved o.redemption_status

abbrev pub mark_cancelled : ℕ → Order → Order → Order
mark_cancelled now passed o = record o {
  status = cancelled;
  payment_status = payment_cancelled;
  cancelled_at = or_now now passed.cancelled_at;
}

unfoldable pub release_points_if : Bool → ℕ → Order → World → World
release_points_if false now o w = w
release_points_if true now o w = record w {
  loyalty = (release_reserved_loyalty_redemption now o w.loyalty).1;
}

-- What follows the guarded write; the last argument of it is the order as written.
unfoldable pub after_cancellation : Setting → ℕ → Order → Order → World → World
unfolding should_release_loyalty release_points_if release_inventory_for_order
    cancel_shiprocket_for_order
after_cancellation setting now existing updated w =
    cancel_shiprocket_for_order setting now updated (
      release_inventory_for_order existing
        (release_points_if (should_release_loyalty existing) now existing w))

unfoldable pub perform_order_cancellation : Setting → ℕ → Order → World → Option Order × World
unfolding after_cancellation
perform_order_cancellation setting now existing w = elim (find_order existing.id w) [
  | none ↦ (none, w)
  | some o ↦
      if same_status o.status cancelled
      then (some o, w)
      else let w' =
          after_cancellation setting now existing (mark_cancelled now existing o)
            (set_order existing.id (mark_cancelled now existing) w) in
        (find_order existing.id w', w')
]
