-- ===== src/Shipping/Settles.antt =====
-- What one event of Shiprocket does to the statuses of orders, whether its processing ends or breaks
-- off.
use Prim.Native.String.{String}
use lavish_fashion.Prelude.{
  ℕ, ◌≡◌, ◌≢◌, refl, sym, ap, ◌∙◌, subst, ◌⊎◌, inl, inr, true, some, ◌==◌, ==_iff, Bool-cases,
  Option-cases,
}
use lavish_fashion.Orders.{Order, OrderStatus}
use lavish_fashion.Orders.World.{World, find_order}
use lavish_fashion.Orders.Kept.{standing_of}
use lavish_fashion.Orders.Cancel.{Setting}
use lavish_fashion.Orders.Effects.{first_of, status_at}
use lavish_fashion.Orders.Updates.{may_move, validate_may}
use lavish_fashion.Orders.Broken.Keeps.{broken_change-moves}
use lavish_fashion.Orders.Ids.{ids}
use lavish_fashion.Orders.Absorb.{apart_of}
use lavish_fashion.Shipping.{Payload, processed, Event, Post}
use lavish_fashion.Shipping.Signal.{
  find_order_for_shiprocket_webhook, resolve_shiprocket_local_status,
  build_shiprocket_webhook_update_set,
}
use lavish_fashion.Shipping.Drain.{
  update_order, move_order, match_order, leave_unmatched, look_at, break_update, break_match,
  break_off,
}
use lavish_fashion.Shipping.Matching.{distinct, matched_by_id}
use lavish_fashion.Shipping.Moves.{may_not_stop, fields-status, move-moves, update_order-ids}

-- The event leads to a move of the order that it is matched with, and `Closes` holds then, or no
-- status changes.
abbrev pub Settles : (String → String) → Event → Post → World → Type 0 → Type 0
Settles upper e p w Closes =
    ((j : ℕ) → status_at j w ≡ status_at j p.world)
    ⊎ ((payload : Payload) × (o : Order) × (status : OrderStatus) × (e.payload ≡ some payload)
        × (find_order_for_shiprocket_webhook payload p.world.loyalty.orders ≡ some o)
        × (resolve_shiprocket_local_status upper payload ≡ some status)
        × (may_move o.status status ≡ true)
        × Closes
        × (status_at o.id w ≡ some status)
        × ((j : ℕ) → o.id ≢ j → status_at j w ≡ status_at j p.world))

pub Settles-weaken :
    (upper : String → String) (e : Event) (p : Post) (w : World) (C D : Type 0)
    → (C → D)
    → Settles upper e p w C
    → Settles upper e p w D
Settles-weaken upper e p w C D f (inl same) = inl same
Settles-weaken upper e p w C D f
      (inr (payload, o, status, has, found, says, may, c, moves, others)) =
    inr (payload, o, status, has, found, says, may, f c, moves, others)

-- What is left of an event once its order is found.
update-Settles :
    (setting : Setting) (upper : String → String) (now : ℕ) (e : Event) (payload : Payload)
    (o : Order) (p : Post)
    → e.payload ≡ some payload
    → find_order_for_shiprocket_webhook payload p.world.loyalty.orders ≡ some o
    → find_order o.id p.world ≡ some o
    → let r =
        update_order setting now e payload o (resolve_shiprocket_local_status upper payload) p in
      Settles upper e p r.1.world (r.0.outcome ≡ processed)
unfolding update_order
update-Settles setting upper now e payload o p has found there =
    elim (Option-cases (resolve_shiprocket_local_status upper payload)) [
      | inl silent ↦ rw (silent, update_order) (inl (λ j. fields-status now payload o j p.world))
      | inr (status, says) ↦
          let moves = move-moves setting now e payload o status p there in
          elim (Bool-cases (may_move o.status status)) [
            | inl may ↦
                rw (says, update_order)
                  (inr (
                    payload,
                    o,
                    status,
                    has,
                    found,
                    says,
                    may,
                    (moves.0.0 may).0,
                    (moves.0.0 may).1,
                    moves.1,
                  ))
            | inr may_not ↦
                rw (says, update_order)
                  (inl (λ j. elim (Bool-cases (o.id == j)) [
                    | inl same ↦
                        stays (move_order setting now e payload o status p).1.world p.world o.id j
                          ((==_iff o.id j).0 same)
                          ((moves.0.1 may_not).1 ∙ sym (ap (λ x. first_of (standing_of x)) there))
                    | inr apart ↦ moves.1 j (apart_of o.id j apart)
                  ]))
          ]
    ]
  where
    stays :
        (w w' : World) (k j : ℕ)
        → k ≡ j
        → status_at k w ≡ status_at k w'
        → status_at j w ≡ status_at j w'
    stays w w' k j same = subst (λ i. status_at i w ≡ status_at i w') same

look_goes :
    (setting : Setting) (upper : String → String) (now : ℕ) (e : Event) (payload : Payload)
    (o : Order) (p : Post)
    → e.payload ≡ some payload
    → find_order_for_shiprocket_webhook payload p.world.loyalty.orders ≡ some o
    → look_at setting upper now e e.payload p
      ≡ update_order setting now e payload o (resolve_shiprocket_local_status upper payload) p
unfolding look_at match_order
look_goes setting upper now e payload o p has found = rw has (rw (found, match_order) refl)

break_goes :
    (setting : Setting) (upper : String → String) (n now : ℕ) (e : Event) (payload : Payload)
    (o : Order) (w : World)
    → e.payload ≡ some payload
    → find_order_for_shiprocket_webhook payload w.loyalty.orders ≡ some o
    → break_off setting upper n now e.payload w
      ≡ break_update setting n now payload o (resolve_shiprocket_local_status upper payload) w
unfolding break_off break_match
break_goes setting upper n now e payload o w has found = rw has (rw (found, break_match) refl)

module _ (setting : Setting) (upper : String → String) (now : ℕ) (e : Event) (p : Post) where
  pub look-Settles :
      distinct p.world.loyalty.orders ≡ true
      → let r = look_at setting upper now e e.payload p in
        Settles upper e p r.1.world (r.0.outcome ≡ processed)
  unfolding look_at match_order leave_unmatched
  look-Settles apart = elim (Option-cases e.payload) [
    | inl refused ↦ rw refused (inl (λ j. refl))
    | inr (payload, there) ↦
        elim (Option-cases (find_order_for_shiprocket_webhook payload p.world.loyalty.orders)) [
          | inl missing ↦ rw there (rw missing (inl (λ j. refl)))
          | inr (o, found) ↦ rw (look_goes setting upper now e payload o p there found) (
              update-Settles setting upper now e payload o p there found
                (matched_by_id payload o p.world.loyalty.orders apart found))
        ]
  ]

  pub look-ids : ids (look_at setting upper now e e.payload p).1.world ≡ ids p.world
  unfolding look_at match_order leave_unmatched
  look-ids = elim (Option-cases e.payload) [
    | inl refused ↦ rw refused refl
    | inr (payload, there) ↦
        elim (Option-cases (find_order_for_shiprocket_webhook payload p.world.loyalty.orders)) [
          | inl missing ↦ rw there (rw missing refl)
          | inr (o, found) ↦ rw (look_goes setting upper now e payload o p there found) (
              update_order-ids setting now e payload o
                (resolve_shiprocket_local_status upper payload) p)
        ]
  ]

  -- The part of `break_off` behind the match.
  break_update-Settles :
      (n : ℕ) (payload : Payload) (o : Order)
      → e.payload ≡ some payload
      → find_order_for_shiprocket_webhook payload p.world.loyalty.orders ≡ some o
      → find_order o.id p.world ≡ some o
      → let w =
          break_update setting n now payload o
            (resolve_shiprocket_local_status upper payload)
            p.world in
        Settles upper e p w Unit × (ids w ≡ ids p.world)
  unfolding break_update
  break_update-Settles n payload o has found there =
      elim (Option-cases (resolve_shiprocket_local_status upper payload)) [
        | inl silent ↦ rw (silent, break_update) (inl (λ j. refl), refl)
        | inr (status, says) ↦ elim (Bool-cases (may_move o.status status)) [
          | inr may_not ↦
              rw (says, break_update)
                (rw (may_not_stop o.status status) (rw may_not (inl (λ j. refl), refl)))
          | inl may ↦
              let (moves, others, same) =
                broken_change-moves n setting now o status
                  (some (build_shiprocket_webhook_update_set now o.shiprocket payload)) p.world
                  there in
              rw (says, break_update)
                (rw (may_not_stop o.status status) (
                  rw (may, validate_may o.status status may)
                    (inr (payload, o, status, has, found, says, may, tt, moves, others), same)))
        ]
      ]

  pub break-Settles :
      (n : ℕ)
      → distinct p.world.loyalty.orders ≡ true
      → let w = break_off setting upper n now e.payload p.world in
        Settles upper e p w Unit × (ids w ≡ ids p.world)
  unfolding break_off break_match
  break-Settles n apart = elim (Option-cases e.payload) [
    | inl refused ↦ rw refused (inl (λ j. refl), refl)
    | inr (payload, there) ↦
        elim (Option-cases (find_order_for_shiprocket_webhook payload p.world.loyalty.orders)) [
          | inl missing ↦ rw there (rw missing (inl (λ j. refl), refl))
          | inr (o, found) ↦ rw (break_goes setting upper n now e payload o p.world there found) (
              break_update-Settles n payload o there found
                (matched_by_id payload o p.world.loyalty.orders apart found))
        ]
  ]
