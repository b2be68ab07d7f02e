-- ===== src/Orders/Once.antt =====
-- A cancellation gives back once, and a delivery rewards once, also for orders that were read long
-- before.
use mathlib.Core.Option.{some-injective}
use lavish_fashion.Prelude.{
  ℕ, ◌≡◌, refl, sym, ap, ◌∙◌, subst, inl, inr, Bool, true, false, some, List, ◌∷◌, ok,
  if◌then◌else◌, Bool-cases, Option-cases,
}
use lavish_fashion.Inventory.{
  OrderItem, Product, release_inventory_for_items, reserve_inventory_for_items,
  backfill_missing_product_inventory,
}
use lavish_fashion.Inventory.Shelf.{shelf}
use lavish_fashion.Inventory.Reserve.{release-reserve_inventory}
use lavish_fashion.Orders.{Order, OrderStatus, same_status, cancelled}
use lavish_fashion.Orders.World.{World, find_order, set_order}
use lavish_fashion.Orders.Kept.{standing_of}
use lavish_fashion.Orders.Cancel.{
  Setting, mark_cancelled, is_cancel_done, cancel_shiprocket_for_order, release_inventory_for_order,
  release_points_if, should_release_loyalty, after_cancellation, perform_order_cancellation,
}
use lavish_fashion.Orders.Effects.{first_of, status_at}
use lavish_fashion.Orders.Moves.{same_status_refl, perform_again, perform_done, perform-status}

shiprocket-products :
    (setting : Setting) (now : ℕ) (o : Order) (w : World)
    → (cancel_shiprocket_for_order setting now o w).products ≡ w.products
unfolding cancel_shiprocket_for_order
shiprocket-products setting now o w = elim (Option-cases o.shiprocket.order_id) [
  | inl missing ↦ rw missing refl
  | inr (j, there) ↦ elim (Bool-cases (is_cancel_done o.shiprocket.cancel_status)) [
    | inl over ↦ rw (there, over) refl
    | inr going ↦ elim (Bool-cases setting.configured) [
      | inl on ↦ rw (there, going, on) refl
      | inr off ↦ rw (there, going, off) refl
    ]
  ]
]

points-products :
    (b : Bool) (now : ℕ) (o : Order) (w : World)
    → (release_points_if b now o w).products ≡ w.products
unfolding release_points_if
points-products false now o w = refl
points-products true now o w = refl

-- The stock after a cancellation by this copy of the order.
abbrev pub given_back : Order → List Product → List Product
given_back c products =
    if c.inventory_reserved then release_inventory_for_items c.items products else products

inventory-products :
    (c : Order) (w : World) → (release_inventory_for_order c w).products ≡ given_back c w.products
unfolding release_inventory_for_order
inventory-products c w = elim (Bool-cases c.inventory_reserved) [
  | inl held ↦ rw held refl
  | inr free ↦ rw free refl
]

after_cancellation-products :
    (setting : Setting) (now : ℕ) (c u : Order) (w : World)
    → (after_cancellation setting now c u w).products ≡ given_back c w.products
unfolding after_cancellation
after_cancellation-products setting now c u w =
    let points = release_points_if (should_release_loyalty c) now c w in
    shiprocket-products setting now u (release_inventory_for_order c points)
    ∙ inventory-products c points
    ∙ ap (given_back c) (points-products (should_release_loyalty c) now c w)

pub order_with :
    (k : ℕ) (st : OrderStatus) (w : World)
    → status_at k w ≡ some st
    → (o : Order) × (find_order k w ≡ some o) × (o.status ≡ st)
order_with k st w at = elim (Option-cases (find_order k w)) [
  | inl missing ↦ cc
  | inr (o, there) ↦
      (o, there, some-injective o.status st (sym (ap (λ x. first_of (standing_of x)) there) ∙ at))
]

again-nothing :
    (setting : Setting) (later : ℕ) (c : Order) (w : World)
    → status_at c.id w ≡ some cancelled
    → (perform_order_cancellation setting later c w).1 ≡ w
again-nothing setting later c w at =
    let (o, there, is) = order_with c.id cancelled w at in
    rw
      (perform_again setting later c o w there
        (ap (λ s. same_status s cancelled) is ∙ same_status_refl cancelled))
      refl

-- A cancellation with a copy of an order, of any age, of which the stored one is not cancelled,
-- cancels it, also when it is delivered by then. The stock gets the items back just when the copy says
-- that they are reserved. A further cancellation with any copy of that order changes nothing.
pub cancel_once :
    (setting : Setting) (now : ℕ) (c o : Order) (w : World)
    → find_order c.id w ≡ some o
    → same_status o.status cancelled ≡ false
    → let w' = (perform_order_cancellation setting now c w).1 in
      (status_at c.id w' ≡ some cancelled)
      × (w'.products ≡ given_back c w.products)
      × ((later : ℕ) (d : Order)
          → d.id ≡ c.id
          → (perform_order_cancellation setting later d w').1 ≡ w')
cancel_once setting now c o w there going =
    let w' = (perform_order_cancellation setting now c w).1 in
    (
      perform-status setting now c o w there,
      ap (λ x. x.products) (perform_done setting now c o w there going)
          ∙ after_cancellation-products setting now c (mark_cancelled now c o)
              (set_order c.id (mark_cancelled now c) w),
      λ later d same. again-nothing setting later d w' (
          subst (λ i. status_at i w' ≡ some cancelled) (sym same)
            (perform-status setting now c o w there)),
    )

-- An order that took its items from the stock, is stored since and is not cancelled, gives all of
-- them back when it is cancelled: every stock is then what the backfill made it before the
-- reservation.
pub cancel-restores :
    (setting : Setting) (now : ℕ) (down : OrderItem → Bool) (c o : Order) (i : OrderItem)
    (is : List OrderItem) (ps : List Product) (w : World)
    → c.items ≡ i ∷ is
    → c.inventory_reserved ≡ true
    → (reserve_inventory_for_items down (i ∷ is) ps).0 ≡ ok tt
    → w.products ≡ (reserve_inventory_for_items down (i ∷ is) ps).1
    → find_order c.id w ≡ some o
    → same_status o.status cancelled ≡ false
    → (k : ℕ)
    → shelf k (perform_order_cancellation setting now c w).1.products
      ≡ shelf k (backfill_missing_product_inventory ps)
cancel-restores setting now down c o i is ps w items held took stock there going k =
    ap (shelf k) ((cancel_once setting now c o w there going).1)
    ∙ ap (shelf k) (rw (held, items, stock) refl)
    ∙ release-reserve_inventory down k i is ps took
