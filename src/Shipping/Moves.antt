-- ===== src/Shipping/Moves.antt =====
-- What an event of Shiprocket makes of the statuses of orders.
use lavish_fashion.Prelude.{
  ℕ, ◌≡◌, ◌≢◌, refl, ap, ◌∙◌, inl, inr, true, false, Option, none, not, ◌&&◌, some, Bool-cases,
  arith,
}
use lavish_fashion.Orders.{Order, OrderStatus, same_status}
use lavish_fashion.Orders.World.{World, find_order}
use lavish_fashion.Orders.Kept.{standing_of}
use lavish_fashion.Orders.Cancel.{Setting, set_shiprocket}
use lavish_fashion.Orders.Status.{
  is_finalized_order_status, change_status, apply_order_status_transition,
}
use lavish_fashion.Orders.Effects.{first_of, status_at}
use lavish_fashion.Orders.Moves.{add_to-status}
use lavish_fashion.Orders.Final.{change-moves, change-other}
use lavish_fashion.Orders.Ids.{ids, ids-set_order, change_status-ids}
use lavish_fashion.Orders.Updates.{may_move, validate_may}
use lavish_fashion.Shipping.{Payload, processed, ignored, Event, Post}
use lavish_fashion.Shipping.Signal.{build_shiprocket_webhook_update_set}
use lavish_fashion.Shipping.Drain.{close, in_world, settle_transition, move_order, update_order}

pub may_not_stop :
    (old new : OrderStatus)
    → (is_finalized_order_status old && not (same_status old new)) ≡ not (may_move old new)
unfolding is_finalized_order_status same_status
may_not_stop old new = ground arith

abbrev pub fields_of : ℕ → Payload → Order → World → World
fields_of now payload o =
    set_shiprocket o.id (build_shiprocket_webhook_update_set now o.shiprocket payload)

pub fields-status :
    (now : ℕ) (payload : Payload) (o : Order) (k : ℕ) (w : World)
    → status_at k (fields_of now payload o w) ≡ status_at k w
fields-status now payload o k w =
    add_to-status k o.id (some (build_shiprocket_webhook_update_set now o.shiprocket payload)) w

fields-ids :
    (now : ℕ) (payload : Payload) (o : Order) (w : World) → ids (fields_of now payload o w) ≡ ids w
fields-ids now payload o w =
    ids-set_order o.id
      (λ x. record x {
        shiprocket = build_shiprocket_webhook_update_set now o.shiprocket payload x.shiprocket;
      })
      w (λ x. refl)

module _ (setting : Setting) (now : ℕ) (e : Event) (payload : Payload) (o : Order) where
  move_goes :
      (status : OrderStatus) (p : Post)
      → may_move o.status status ≡ true
      → move_order setting now e payload o status p
        ≡ close now e processed (some o.id) (some status) (record p {
          world =
              (change_status setting now o status
                (some (build_shiprocket_webhook_update_set now o.shiprocket payload))
                p.world).1;
        })
  unfolding move_order apply_order_status_transition settle_transition
  move_goes status p may =
      rw (may_not_stop o.status status, move_order)
        (rw (may, validate_may o.status status may, apply_order_status_transition) refl)

  move_stops :
      (status : OrderStatus) (p : Post)
      → may_move o.status status ≡ false
      → move_order setting now e payload o status p
        ≡ close now e ignored (some o.id) (some status) (in_world (fields_of now payload o) p)
  unfolding move_order
  move_stops status p may_not = rw (may_not_stop o.status status, move_order) (rw may_not refl)

  -- For an order that is found and a status that an event names.
  pub move-moves :
      (status : OrderStatus) (p : Post)
      → find_order o.id p.world ≡ some o
      → let r = move_order setting now e payload o status p in
        ((may_move o.status status ≡ true
            → (r.0.outcome ≡ processed) × (status_at o.id r.1.world ≡ some status))
          × (may_move o.status status ≡ false
              → (r.0.outcome ≡ ignored) × (status_at o.id r.1.world ≡ some o.status)))
        × ((j : ℕ) → o.id ≢ j → status_at j r.1.world ≡ status_at j p.world)
  move-moves status p there =
      let update = build_shiprocket_webhook_update_set now o.shiprocket payload in
      (
        (
          λ may.
              rw (move_goes status p may)
                (refl, change-moves setting now o status (some update) p.world there),
          λ may_not. rw (move_stops status p may_not) (
            refl,
            fields-status now payload o o.id p.world ∙ ap (λ x. first_of (standing_of x)) there,
          ),
        ),
        λ j apart. elim (Bool-cases (may_move o.status status)) [
          | inl may ↦
              rw (move_goes status p may)
                (change-other setting now o status (some update) j p.world apart)
          | inr may_not ↦ rw (move_stops status p may_not) (fields-status now payload o j p.world)
        ],
      )

  move-ids :
      (status : OrderStatus) (p : Post)
      → ids (move_order setting now e payload o status p).1.world ≡ ids p.world
  move-ids status p = elim (Bool-cases (may_move o.status status)) [
    | inl may ↦ rw (move_goes status p may) (
        change_status-ids setting now o status
          (some (build_shiprocket_webhook_update_set now o.shiprocket payload)) p.world)
    | inr may_not ↦ rw (move_stops status p may_not) (fields-ids now payload o p.world)
  ]

  pub update_order-ids :
      (status : Option OrderStatus) (p : Post)
      → ids (update_order setting now e payload o status p).1.world ≡ ids p.world
  unfolding update_order
  update_order-ids none p = fields-ids now payload o p.world
  update_order-ids (some status) p = move-ids status p
