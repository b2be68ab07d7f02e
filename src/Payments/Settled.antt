-- ===== src/Payments/Settled.antt =====
-- An attempt that becomes an order: the goods stay where they are, and it happens once.
use lavish_fashion.Prelude.{
  ℕ, ◌+◌, ◌≡◌, refl, ap, ◌∙◌, inl, inr, true, ◌&&◌, Option, none, some, List, [], ◌∷◌, sum_by,
  sum_by-append, sum_by-update_by, update_by, leb, Bool-cases, Option-cases, arith,
}
use lavish_fashion.Inventory.Shelf.{shelf, raise, demand}
use lavish_fashion.Loyalty.{Store}
use lavish_fashion.Loyalty.Points.{
  find_user, mark_redeemed, reserving_user, finalize_for, finalize_reserved_loyalty_redemption,
}
use lavish_fashion.Orders.{Order, order_key}
use lavish_fashion.Orders.World.{World}
use lavish_fashion.Payments.{Attempt, attempt_key, Shop, find_attempt, PaymentFields, store_order}
use lavish_fashion.Payments.Attempts.{
  order_of, clear_cart_for_completed_order, mark_order_created, create_order,
}
use lavish_fashion.Payments.Goods.{attempt_held, order_held, held_by_orders, goods}

orders_held_kept :
    (k j : ℕ) (f : Order → Order) (os : List Order)
    → ((o : Order) → order_held k (f o) ≡ order_held k o)
    → sum_by (order_held k) (update_by order_key j f os) ≡ sum_by (order_held k) os
orders_held_kept k j f [] same = refl
orders_held_kept k j f (o ∷ os) same = ground (arith, same o, orders_held_kept k j f os same)

finalize_for-held :
    (now : ℕ) (o : Order) (j k : ℕ) (s : Store)
    → sum_by (order_held k) (finalize_for now o j s).1.orders ≡ sum_by (order_held k) s.orders
unfolding finalize_for
finalize_for-held now o j k s = elim (Option-cases (find_user j s)) [
  | inl missing ↦ rw (missing, finalize_for) refl
  | inr (u, there) ↦
      elim (Bool-cases (
        leb o.points_redeemed u.loyalty_points
        && leb o.points_redeemed u.reserved_loyalty_points)) [
          | inl enough ↦
              rw (there, finalize_for)
                (rw enough (orders_held_kept k o.id (mark_redeemed now o) s.orders (λ x. refl)))
          | inr short ↦ rw (there, finalize_for) (rw short refl)
        ]
]

finalize-held :
    (now : ℕ) (o : Order) (k : ℕ) (s : Store)
    → sum_by (order_held k) (finalize_reserved_loyalty_redemption now o s).1.orders
      ≡ sum_by (order_held k) s.orders
unfolding finalize_reserved_loyalty_redemption
finalize-held now o k s = elim (Option-cases (reserving_user o)) [
  | inl nobody ↦ rw (nobody, finalize_reserved_loyalty_redemption) refl
  | inr (j, owner) ↦
      rw (owner, finalize_reserved_loyalty_redemption) (finalize_for-held now o j k s)
]

pub cart-same :
    (o : Order) (w : World)
    → ((clear_cart_for_completed_order o w).loyalty ≡ w.loyalty)
      × ((clear_cart_for_completed_order o w).products ≡ w.products)
unfolding clear_cart_for_completed_order
cart-same o w = elim (Bool-cases o.buy_now) [
  | inl now ↦ rw now (refl, refl)
  | inr cart ↦ rw cart (refl, refl)
]

-- The loyalty store and the products after an order was created.
abbrev spent : ℕ → ℕ → Option ℕ → Option PaymentFields → Attempt → Shop → Store
spent now id event fields a s =
    (finalize_reserved_loyalty_redemption now (order_of now id event fields a)
      (store_order (order_of now id event fields a) s.world).loyalty).1

pub create-parts :
    (now id : ℕ) (event : Option ℕ) (fields : Option PaymentFields) (a : Attempt) (s : Shop)
    → ((create_order now id event fields a s).world.loyalty ≡ spent now id event fields a s)
      × ((create_order now id event fields a s).world.products ≡ s.world.products)
unfolding create_order
create-parts now id event fields a s =
    let o = order_of now id event fields a in
    cart-same o (record (store_order o s.world) { loyalty = spent now id event fields a s })

closed-held :
    (k id : ℕ) (event : Option ℕ) (fields : Option PaymentFields) (a : Attempt)
    → attempt_held k (mark_order_created id event fields a a) ≡ 0
closed-held k id event none a = refl
closed-held k id event (some f) a = refl

pub create-goods :
    (now id : ℕ) (event : Option ℕ) (fields : Option PaymentFields) (a : Attempt) (k : ℕ) (s : Shop)
    → find_attempt a.id s ≡ some a
    → a.inventory_reserved ≡ true
    → goods k (create_order now id event fields a s) ≡ goods k s
unfolding create_order
create-goods now id event fields a k s there reserved =
    let o = order_of now id event fields a in
    let f = mark_order_created id event fields a in
    let (loyalty, products) = create-parts now id event fields a s in
    let off = sum_by-update_by attempt_key (attempt_held k) a.id f s.attempts a there in
    let held : attempt_held k a ≡ demand k a.items = rw reserved refl in
    let on : sum_by (order_held k) (spent now id event fields a s).orders
        ≡ held_by_orders k s.world + demand k a.items =
      finalize-held now o k (store_order o s.world).loyalty
      ∙ sum_by-append (order_held k) s.world.loyalty.orders (o ∷ [])
      ∙ omega arith in
    let attempts = sum_by (attempt_held k) (update_by attempt_key a.id f s.attempts) in
    ap
      (λ l.
        raise (attempts + sum_by (order_held k) l.orders)
          (shelf k (create_order now id event fields a s).world.products))
      loyalty
    ∙ ap
        (λ ps.
          raise (attempts + sum_by (order_held k) (spent now id event fields a s).orders)
            (shelf k ps))
        products
    ∙ ap (λ n. raise n (shelf k s.world.products))
        (omega (arith, off, on, held, closed-held k id event fields a))
