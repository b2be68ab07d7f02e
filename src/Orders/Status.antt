-- ===== src/Orders/Status.antt =====
-- applyOrderStatusTransition of server/services/orderStatusService.js: which changes of the status
-- are allowed, and what they write.
use lavish_fashion.Prelude.{
  ℕ, Bool, true, false, not, ◌&&◌, ◌||◌, Option, none, some, Result, ok, err, Exec, if◌then◌else◌,
}
use lavish_fashion.Refund.Store.{PaymentMethod, cod_method}
use lavish_fashion.Orders.{
  Order, OrderStatus, same_status, out_for_delivery, delivered, cancelled, payment_paid, Shiprocket,
}
use lavish_fashion.Orders.World.{
  World, find_order, set_order, send, out_for_delivery_message, delivered_message,
}
use lavish_fashion.Orders.Cancel.{Setting, set_shiprocket, perform_order_cancellation}
use lavish_fashion.Orders.Delivery.{process_delivered_order_effects}

unfoldable pub is_finalized_order_status : OrderStatus → Bool
unfolding same_status
is_finalized_order_status s = same_status s delivered || same_status s cancelled

pub data TransitionError : Type 0 where
  delivered_is_final cancelled_is_final : TransitionError

unfoldable pub validate_order_status_transition :
    OrderStatus → OrderStatus → Result TransitionError (Unit {0})
unfolding same_status
validate_order_status_transition old new =
    if same_status old delivered && not (same_status new delivered)
    then err delivered_is_final
    else if same_status old cancelled && not (same_status new cancelled)
    then err cancelled_is_final
    else ok tt

-- `additionalSet`: every caller passes fields of `shiprocket` only, or nothing.
abbrev pub Additional : Type 0
Additional = Option (Shiprocket → Shiprocket)

-- `Object.keys(additionalSet).length > 0`, and the write it guards.
abbrev pub add_to : ℕ → Additional → World → World
add_to k none w = w
add_to k (some f) w = set_shiprocket k f w

abbrev pub with_additional : Additional → Order → Order
with_additional none o = o
with_additional (some f) o = record o { shiprocket = f o.shiprocket }

unfoldable pub pays_on_delivery : PaymentMethod → Bool
pays_on_delivery cod_method = true
pays_on_delivery _ = false

abbrev pub mark_paid_on_delivery : Bool → ℕ → Order → Order
mark_paid_on_delivery false now o = o
mark_paid_on_delivery true now o = record o {
  payment = true;
  payment_status = payment_paid;
  payment_verified_at = some now;
}

-- The update of a delivery: it sets the time of delivery only where the order that was passed has
-- none.
abbrev pub delivered_time : ℕ → Option ℕ → Order → Order
delivered_time now none o = record o { delivered_at = some now }
delivered_time now (some t) o = o

unfoldable pub mark_delivered : ℕ → Additional → Order → Order → Order
unfolding pays_on_delivery
mark_delivered now additional passed o = delivered_time now passed.delivered_at (
    mark_paid_on_delivery (pays_on_delivery passed.payment_method && not passed.payment) now
      (with_additional additional (record o { status = delivered })))

unfoldable pub mark_status : OrderStatus → Additional → Order → Order
mark_status status additional o = with_additional additional (record o { status = status })

abbrev pub add_to_found : ℕ → Additional → Option Order × World → World
add_to_found k additional (none, w) = w
add_to_found k additional (some o, w) = add_to k additional w

-- The guarded write of a delivery, with what it says of the rewards.
unfoldable pub deliver : ℕ → Additional → Order → World → Bool × World
unfolding mark_delivered
deliver now additional existing w = elim (find_order existing.id w) [
  | none ↦ (false, w)
  | some o ↦
      if same_status o.status delivered
      then (false, add_to existing.id additional w)
      else (true, set_order existing.id (mark_delivered now additional existing) w)
]

unfoldable pub write_status : Setting → ℕ → Order → OrderStatus → Additional → World → Bool × World
unfolding deliver perform_order_cancellation mark_status
write_status setting now existing cancelled additional w =
    (false, add_to_found existing.id additional (perform_order_cancellation setting now existing w))
write_status setting now existing delivered additional w = deliver now additional existing w
write_status setting now existing status additional w =
    (false, set_order existing.id (mark_status status additional) w)

unfoldable pub notify : OrderStatus → Option Order → World → World
notify out_for_delivery (some o) w = send (out_for_delivery_message o.id) w
notify delivered (some o) w = send (delivered_message o.id) w
notify _ _ w = w

unfoldable pub deliver_effects : Setting → ℕ → Order → Bool → Option Order → World → World
unfolding process_delivered_order_effects
deliver_effects setting now existing true (some updated) w =
    process_delivered_order_effects setting now existing updated w
deliver_effects setting now existing _ _ w = w

abbrev pub is_repeated_cancellation : OrderStatus → OrderStatus → Bool
is_repeated_cancellation old new = same_status new cancelled && same_status old cancelled

-- Behind the validation: the answer says whether the rewards of a delivery were processed.
unfoldable pub change_status : Setting → ℕ → Order → OrderStatus → Additional → World → Bool × World
unfolding write_status notify deliver_effects same_status
change_status setting now existing status additional w =
    if is_repeated_cancellation existing.status status
    then (false, add_to existing.id additional w)
    else let (rewards, w') = write_status setting now existing status additional w in
      let updated = find_order existing.id w' in
      (rewards, deliver_effects setting now existing rewards updated (notify status updated w'))

unfoldable pub apply_order_status_transition :
    Setting → ℕ → Order → OrderStatus → Additional → Exec World TransitionError Bool
unfolding change_status validate_order_status_transition
apply_order_status_transition setting now existing status additional w =
    elim (validate_order_status_transition existing.status status) [
      | err e ↦ (err e, w)
      | ok valid ↦
          let (rewards, w') = change_status setting now existing status additional w in
          (ok rewards, w')
    ]
