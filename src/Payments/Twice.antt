-- ===== src/Payments/Twice.antt =====
-- What the two checkouts leave of the stock, whether they go through or fail.
use lavish_fashion.Prelude.{
  ℕ, ◌≡◌, refl, sym, ap, ◌∙◌, inl, inr, true, false, none, List, [], ◌∷◌, ◌++◌, sum_by,
  sum_by-append, find_by-append, ==_refl, ok, err, ltb, ◌==◌, Bool-cases, arith,
}
use lavish_fashion.Inventory.{
  OrderItem, Product, reserve_inventory_for_items, backfill_missing_product_inventory,
}
use lavish_fashion.Inventory.Shelf.{shelf, raise, demand, release-shelf}
use lavish_fashion.Inventory.Reserve.{reserve_inventory-shelf}
use lavish_fashion.Orders.World.{World}
use lavish_fashion.Payments.{attempt_key, attempt_failed, Shop, find_attempt, store_order}
use lavish_fashion.Payments.Attempts.{clear_cart_for_completed_order, is_order_created}
use lavish_fashion.Payments.Checkout.{
  Basket, CheckoutFaults, create_failed, gateway_failed, give_back_points, drop_stock,
  reserve_points, reserve_stock, undo, cod_order, store_cod_order, place_order_cod,
}
use lavish_fashion.Payments.Online.{
  attempt_of, fail_attempt, answer_attempt, undo_twice, store_attempt, with_stock, with_points,
  place_order_razorpay,
}
use lavish_fashion.Payments.Goods.{order_held, held_by_orders, raise_more, not_completed-shelf}
use lavish_fashion.Payments.Settled.{cart-same}

points-products : (b : Basket) (w : World) → (give_back_points b w).products ≡ w.products
unfolding give_back_points
points-products b w = elim (Bool-cases (ltb 0 b.points_redeemed)) [
  | inl some_points ↦ rw some_points refl
  | inr nothing ↦ rw nothing refl
]

undo-shelf :
    (b : Basket) (k : ℕ) (w : World)
    → shelf k (undo b w).products ≡ raise (demand k b.items) (shelf k w.products)
undo-shelf b k w =
    ap (shelf k) (points-products b (drop_stock b w)) ∙ release-shelf b.items k w.products

-- A checkout of at least one item that got its points, and its stock, from a world.
module _ (faults : CheckoutFaults) (now id : ℕ) (i : OrderItem) (is : List OrderItem) (b : Basket)
    (w w1 : World) (ps : List Product) (items : b.items ≡ i ∷ is)
    (points : reserve_points b w ≡ (ok tt, w1))
    (stock : reserve_inventory_for_items faults.stock_down (i ∷ is) w1.products ≡ (ok tt, ps)) where
  stocked : reserve_stock faults b w1 ≡ (ok tt, record w1 { products = ps })
  unfolding reserve_stock
  stocked = rw (items, stock) refl

  taken-shelf :
      (k : ℕ)
      → shelf k (backfill_missing_product_inventory w1.products)
        ≡ raise (demand k b.items) (shelf k ps)
  taken-shelf k =
      (reserve_inventory-shelf faults.stock_down k i is w1.products).0 (ap (λ r. r.0) stock)
      ∙ rw (items, ap (λ r. r.1) stock) refl

  reached : World
  reached = record w1 { products = ps }

  cod_reaches : place_order_cod faults now id b w ≡ store_cod_order faults now id b reached
  unfolding place_order_cod reached
  cod_reaches = rw (points, stocked) refl

  -- A cash-on-delivery checkout whose points and items are reserved: when the order is stored and
  -- answered, it is the one of the request and holds what its items ask, so that of every product as
  -- much is in stock or held by an order as was, after the backfill, before. When the order cannot be
  -- stored, the checkout fails and every stock is what the backfill made it.
  pub cod-shelf :
      (k : ℕ)
      → (faults.create_fails ≡ false
          → faults.later_fails ≡ false
          → let r = place_order_cod faults now id b w in
            (r.0 ≡ ok id)
            × (r.1.loyalty.orders ≡ w1.loyalty.orders ++ cod_order now id b ∷ [])
            × (raise (held_by_orders k r.1) (shelf k r.1.products)
                ≡ raise
                    (held_by_orders k w1)
                    (shelf k (backfill_missing_product_inventory w1.products))))
        × (faults.create_fails ≡ true
            → let r = place_order_cod faults now id b w in
              (r.0 ≡ err create_failed)
              × (shelf k r.1.products ≡ shelf k (backfill_missing_product_inventory w1.products)))
  unfolding store_cod_order reached
  cod-shelf k =
      let o = cod_order now id b in
      let (loyalty, products) = cart-same o (store_order o reached) in
      (
        λ stores answers. rw cod_reaches (
            rw (stores, answers)
              (
                refl,
                ap (λ l. l.orders) loyalty,
                ap
                      (λ l. raise (sum_by (order_held k) l.orders) (
                        shelf k
                          (clear_cart_for_completed_order o (store_order o reached)).products))
                      loyalty
                    ∙ ap
                        (λ p.
                          raise (sum_by (order_held k) (w1.loyalty.orders ++ o ∷ [])) (shelf k p))
                        products
                    ∙ sym (
                        raise_more (held_by_orders k w1) (demand k b.items)
                          (sum_by (order_held k) (w1.loyalty.orders ++ o ∷ [])) (shelf k ps)
                          (omega (arith, sum_by-append (order_held k) w1.loyalty.orders (o ∷ []))))
                    ∙ ap (raise (held_by_orders k w1)) (sym (taken-shelf k)),
              )),
        λ fails. rw cod_reaches (rw fails (refl, undo-shelf b k reached ∙ sym (taken-shelf k))),
      )

  online_reaches :
      (s : Shop)
      → s.world ≡ w
      → (b.amount == 0) ≡ false
      → place_order_razorpay faults now id b s
        ≡ store_attempt faults now id b (record s { world = reached })
  unfolding place_order_razorpay with_points with_stock reached
  online_reaches s here pays = rw (pays, place_order_razorpay) (rw (here, points) (rw stocked refl))

  undo_twice-shelf :
      (k : ℕ) (s : Shop)
      → shelf k (undo_twice b (record s { world = reached })).world.products
        ≡ raise (demand k b.items) (shelf k (backfill_missing_product_inventory w1.products))
  unfolding reached
  undo_twice-shelf k s =
      undo-shelf b k (undo b reached)
      ∙ ap (raise (demand k b.items)) (undo-shelf b k reached ∙ sym (taken-shelf k))

  -- The attempt that was just stored falls through, after what it reserved was given back.
  attempt_fails-shelf :
      (k : ℕ) (s : Shop)
      → find_attempt id s ≡ none
      → shelf k
          (fail_attempt id b (record s {
            world = reached;
            attempts = s.attempts ++ attempt_of now id b ∷ [];
          })).world.products
        ≡ raise (demand k b.items) (shelf k (backfill_missing_product_inventory w1.products))
  unfolding fail_attempt reached is_order_created
  attempt_fails-shelf k s fresh =
      let a = attempt_of now id b in
      let undone : Shop = record s { world = undo b reached; attempts = s.attempts ++ a ∷ [] } in
      not_completed-shelf attempt_failed none none id k a undone
        (find_by-append attempt_key id s.attempts a fresh ∙ rw (==_refl id) refl) refl
      ∙ ap (raise (demand k b.items)) (undo-shelf b k reached ∙ sym (taken-shelf k))

  -- A Razorpay checkout of something to pay, whose points and items are reserved, fails when its
  -- attempt cannot be stored, and when it is stored, with an id that was free, and the gateway gives
  -- no order. In both cases the items come back twice: every stock is raised by what the items ask
  -- over what the backfill made it.
  pub online_failed-shelf :
      (k : ℕ) (s : Shop)
      → s.world ≡ w
      → (b.amount == 0) ≡ false
      → let r = place_order_razorpay faults now id b s in
        let too_much =
          raise (demand k b.items) (shelf k (backfill_missing_product_inventory w1.products)) in
        (faults.create_fails ≡ true
          → (r.0 ≡ err create_failed) × (shelf k r.1.world.products ≡ too_much))
        × (faults.create_fails ≡ false
            → faults.gateway ≡ none
            → find_attempt id s ≡ none
            → (r.0 ≡ err gateway_failed) × (shelf k r.1.world.products ≡ too_much))
  unfolding store_attempt answer_attempt reached
  online_failed-shelf k s here pays = (
    λ fails. rw (online_reaches s here pays) (rw fails (refl, undo_twice-shelf k s)),
    λ stores silent fresh.
        rw (online_reaches s here pays) (rw (stores, silent) (refl, attempt_fails-shelf k s fresh)),
  )
