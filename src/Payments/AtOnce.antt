-- ===== src/Payments/AtOnce.antt =====
-- Two reports of a payment at the same time.
use lavish_fashion.Prelude.{
  ℕ, suc, ◌≡◌, refl, ap, ◌∙◌, inl, inr, true, ◌&&◌, Option, none, some, List, [], ◌∷◌, ◌++◌, length,
  update_by, leb, Bool-cases, Option-cases, arith,
}
use lavish_fashion.Loyalty.{Store}
use lavish_fashion.Loyalty.Points.{
  find_user, mark_redeemed, reserving_user, finalize_for, finalize_reserved_loyalty_redemption,
}
use lavish_fashion.Orders.{Order, order_key}
use lavish_fashion.Payments.{Attempt, Shop, find_attempt, PaymentFields, store_order}
use lavish_fashion.Payments.Attempts.{order_of, create_order, create_order_from_payment_attempt}
use lavish_fashion.Payments.Settled.{create-parts}
use lavish_fashion.Payments.Attempted.{create_new}

length-update_by :
    (k : ℕ) (f : Order → Order) (os : List Order) → length (update_by order_key k f os) ≡ length os
length-update_by k f [] = refl
length-update_by k f (o ∷ os) = ground (arith, length-update_by k f os)

length-append_one : (os : List Order) (o : Order) → length (os ++ o ∷ []) ≡ suc (length os)
length-append_one [] o = refl
length-append_one (x ∷ os) o = omega (arith, length-append_one os o)

finalize_for-length :
    (now : ℕ) (o : Order) (j : ℕ) (s : Store)
    → length (finalize_for now o j s).1.orders ≡ length s.orders
unfolding finalize_for
finalize_for-length now o j s = elim (Option-cases (find_user j s)) [
  | inl missing ↦ rw (missing, finalize_for) refl
  | inr (u, there) ↦
      elim (Bool-cases (
        leb o.points_redeemed u.loyalty_points
        && leb o.points_redeemed u.reserved_loyalty_points)) [
          | inl enough ↦
              rw (there, finalize_for)
                (rw enough (length-update_by o.id (mark_redeemed now o) s.orders))
          | inr short ↦ rw (there, finalize_for) (rw short refl)
        ]
]

finalize-length :
    (now : ℕ) (o : Order) (s : Store)
    → length (finalize_reserved_loyalty_redemption now o s).1.orders ≡ length s.orders
unfolding finalize_reserved_loyalty_redemption
finalize-length now o s = elim (Option-cases (reserving_user o)) [
  | inl nobody ↦ rw (nobody, finalize_reserved_loyalty_redemption) refl
  | inr (j, owner) ↦
      rw (owner, finalize_reserved_loyalty_redemption) (finalize_for-length now o j s)
]

-- Each run of the body stores one more order.
create-length :
    (now id : ℕ) (event : Option ℕ) (fields : Option PaymentFields) (a : Attempt) (s : Shop)
    → length (create_order now id event fields a s).world.loyalty.orders
      ≡ suc (length s.world.loyalty.orders)
create-length now id event fields a s =
    let o = order_of now id event fields a in
    ap (λ l. length l.orders) (create-parts now id event fields a s).0
    ∙ finalize-length now o (store_order o s.world).loyalty
    ∙ length-append_one s.world.loyalty.orders o

-- Two reports of the payment of one attempt, each of which reads the attempt before the other has
-- written, store two orders for it.
pub paid_at_once :
    (now id later other : ℕ) (event event' : Option ℕ) (fields fields' : Option PaymentFields)
    (a : Attempt) (s : Shop)
    → find_attempt a.id s ≡ some a
    → a.created_order_id ≡ none
    → a.inventory_reserved ≡ true
    → let first = (create_order_from_payment_attempt now id event fields a.id s).1 in
      length (create_order later other event' fields' a first).world.loyalty.orders
      ≡ suc (suc (length s.world.loyalty.orders))
paid_at_once now id later other event event' fields fields' a s there new held =
    rw (create_new now id event fields a.id a s there new held) (
      create-length later other event' fields' a (create_order now id event fields a s)
      ∙ ap suc (create-length now id event fields a s))
