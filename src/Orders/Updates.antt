-- ===== src/Orders/Updates.antt =====
-- What the status route makes of an order, and when a user may cancel one.
use lavish_fashion.Prelude.{
  ℕ, ◌≡◌, ◌≢◌, refl, sym, ◌∙◌, subst, inl, inr, Bool, true, false, not, ◌||◌, none, some, ok, err,
  find_by-key, Bool-cases, arith,
}
use lavish_fashion.Orders.{Order, OrderStatus, same_status, delivered, order_key}
use lavish_fashion.Orders.World.{World, find_order}
use lavish_fashion.Orders.Cancel.{Setting}
use lavish_fashion.Orders.Status.{
  is_finalized_order_status, change_status, TransitionError, delivered_is_final, cancelled_is_final,
  validate_order_status_transition, apply_order_status_transition,
}
use lavish_fashion.Orders.Requests.{done, reply_of, refused, update_order_status}
use lavish_fashion.Orders.Effects.{status_at}
use lavish_fashion.Orders.Final.{change-moves, change-other}

-- An order may keep its status, or leave one that is not final.
abbrev pub may_move : OrderStatus → OrderStatus → Bool
may_move old new = same_status old new || not (is_finalized_order_status old)

pub validate_may :
    (old new : OrderStatus)
    → may_move old new ≡ true
    → validate_order_status_transition old new ≡ ok tt
unfolding validate_order_status_transition is_finalized_order_status same_status
validate_may old new h = ground arith

abbrev why_not : OrderStatus → TransitionError
why_not delivered = delivered_is_final
why_not _ = cancelled_is_final

validate_may_not :
    (old new : OrderStatus)
    → may_move old new ≡ false
    → validate_order_status_transition old new ≡ err (why_not old)
unfolding validate_order_status_transition is_finalized_order_status same_status
validate_may_not old new h = ground arith

update_goes :
    (setting : Setting) (now k : ℕ) (status : OrderStatus) (o : Order) (w : World)
    → find_order k w ≡ some o
    → may_move o.status status ≡ true
    → update_order_status setting now k status w
      ≡ (done, (change_status setting now o status none w).1)
unfolding update_order_status apply_order_status_transition
update_goes setting now k status o w there may =
    rw (there, update_order_status)
      (rw (validate_may o.status status may, apply_order_status_transition, reply_of) refl)

pub update_refused :
    (setting : Setting) (now k : ℕ) (status : OrderStatus) (o : Order) (w : World)
    → find_order k w ≡ some o
    → may_move o.status status ≡ false
    → update_order_status setting now k status w ≡ (refused (why_not o.status), w)
unfolding update_order_status apply_order_status_transition
update_refused setting now k status o w there may_not =
    rw (there, update_order_status)
      (rw (validate_may_not o.status status may_not, apply_order_status_transition, reply_of) refl)

pub update_gone :
    (setting : Setting) (now k : ℕ) (status : OrderStatus) (w : World)
    → find_order k w ≡ none
    → (update_order_status setting now k status w).1 ≡ w
unfolding update_order_status
update_gone setting now k status w missing = rw (missing, update_order_status) refl

-- The status route finds an order that may keep its status or leave one that is not final: it says
-- so, and the order has the wanted status afterwards. With a final status and another one wanted it
-- refuses, and nothing changes. In both cases every other order keeps its status.
pub update-moves :
    (setting : Setting) (now k : ℕ) (status : OrderStatus) (o : Order) (w : World)
    → find_order k w ≡ some o
    → let r = update_order_status setting now k status w in
      ((may_move o.status status ≡ true → (r.0 ≡ done) × (status_at k r.1 ≡ some status))
        × (may_move o.status status ≡ false → (e : TransitionError) × (r ≡ (refused e, w))))
      × ((j : ℕ) → k ≢ j → status_at j r.1 ≡ status_at j w)
update-moves setting now k status o w there =
    let id = find_by-key order_key k w.loyalty.orders o there in
    let there' = subst (λ i. find_order i w ≡ some o) (sym id) there in
    let moved = (change_status setting now o status none w).1 in
    (
      (
        λ may. rw (update_goes setting now k status o w there may) (
          refl,
          subst (λ i. status_at i moved ≡ some status) id
              (change-moves setting now o status none w there'),
        ),
        λ may_not. (why_not o.status, update_refused setting now k status o w there may_not),
      ),
      λ j apart. elim (Bool-cases (may_move o.status status)) [
        | inl may ↦
            rw (update_goes setting now k status o w there may)
              (change-other setting now o status none j w (λ e. apart (sym id ∙ e)))
        | inr may_not ↦ rw (update_refused setting now k status o w there may_not) refl
      ],
    )
