-- ===== src/Payments/Short.antt =====
-- A Razorpay checkout whose items are not in stock gives its points back twice.
use lavish_fashion.Prelude.{
  ℕ, ◌+◌, ◌≤◌, ◌<◌, ◌≡◌, refl, ap, ◌∙◌, false, some, find_by-update_by_self, ok, err, lt→ltb,
  le→leb, ◌==◌, arith,
}
use lavish_fashion.Inventory.{ReserveError, reserve_inventory_for_items}
use lavish_fashion.Loyalty.{User, user_key}
use lavish_fashion.Loyalty.Points.{find_user, write_user, hold, unhold}
use lavish_fashion.Loyalty.Points.Redeemed.{reserve_ok, let_go_ok, unhold-hold}
use lavish_fashion.Orders.World.{World}
use lavish_fashion.Payments.{Shop}
use lavish_fashion.Payments.Checkout.{
  Basket, CheckoutFaults, no_stock, give_back_points, reserve_points, reserve_stock,
}
use lavish_fashion.Payments.Online.{with_stock, with_points, place_order_razorpay}

module _ (faults : CheckoutFaults) (now id k : ℕ) (b : Basket) (u : User) (s : Shop)
    (e : ReserveError) (owner : b.user_id ≡ some k) (there : find_user k s.world.loyalty ≡ some u)
    (some_points : 0 < b.points_redeemed)
    (enough : u.reserved_loyalty_points + b.points_redeemed ≤ u.loyalty_points)
    (short : (reserve_inventory_for_items faults.stock_down b.items s.world.products).0
      ≡ err e) where
  holding : World
  holding = record s.world { loyalty = write_user k (hold b.points_redeemed) s.world.loyalty }

  points_held : reserve_points b s.world ≡ (ok tt, holding)
  unfolding reserve_points holding
  points_held =
      rw (lt→ltb 0 b.points_redeemed some_points, owner)
        (rw
          (reserve_ok k b.points_redeemed u s.world.loyalty there some_points
            (le→leb (u.reserved_loyalty_points + b.points_redeemed) u.loyalty_points enough))
          refl)

  abbrev sold_out : World
  sold_out = record holding {
    products = (reserve_inventory_for_items faults.stock_down b.items s.world.products).1;
  }

  no_stock_left : reserve_stock faults b holding ≡ (err (no_stock e), sold_out)
  unfolding reserve_stock holding
  no_stock_left = rw short refl

  one_back :
      (x : User) (w : World)
      → find_user k w.loyalty ≡ some x
      → b.points_redeemed ≤ x.reserved_loyalty_points
      → (give_back_points b w).loyalty ≡ write_user k (unhold b.points_redeemed) w.loyalty
  unfolding give_back_points
  one_back x w found covered =
      rw (lt→ltb 0 b.points_redeemed some_points, owner)
        (ap (λ r. r.1)
          (let_go_ok k b.points_redeemed x w.loyalty found some_points
            (le→leb b.points_redeemed x.reserved_loyalty_points covered)))

  -- A Razorpay checkout of something to pay, with points that its user has besides the reserved ones,
  -- fails when its stock cannot be reserved. If the user has as many points reserved for other
  -- orders, the points come back twice: the user ends with as many fewer reserved.
  pub online_short-points :
      b.points_redeemed ≤ u.reserved_loyalty_points
      → (b.amount == 0) ≡ false
      → let r = place_order_razorpay faults now id b s in
        (r.0 ≡ err (no_stock e))
        × (find_user k r.1.world.loyalty ≡ some (unhold b.points_redeemed u))
  unfolding place_order_razorpay with_points with_stock holding
  online_short-points others pays =
      let p = b.points_redeemed in
      let first : find_user k sold_out.loyalty ≡ some (hold p u) =
        find_by-update_by_self user_key k (hold p) s.world.loyalty.users u refl there in
      let once = one_back (hold p u) sold_out first (omega arith) in
      let second : find_user k (give_back_points b sold_out).loyalty ≡ some (unhold p (hold p u)) =
        ap (find_user k) once
        ∙ find_by-update_by_self user_key k (unhold p) sold_out.loyalty.users (hold p u) refl
            first in
      let twice =
        one_back (unhold p (hold p u)) (give_back_points b sold_out) second
          (omega (arith, others)) in
      rw (pays, place_order_razorpay)
        (rw points_held (
          rw no_stock_left (
            refl,
            ap (find_user k) twice
                ∙ find_by-update_by_self user_key k (unhold p)
                    (give_back_points b sold_out).loyalty.users (unhold p (hold p u)) refl second
                ∙ ap (λ x. some (unhold p x)) (unhold-hold p u),
          )))
