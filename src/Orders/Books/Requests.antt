-- ===== src/Orders/Books/Requests.antt =====
-- What the requests on orders do to the points of the users.
use lavish_fashion.Prelude.{
  ℕ, refl, subst, inl, inr, Bool, true, false, Option, none, some, List, [], ◌∷◌, Bool-cases,
  Option-cases, Result-cases,
}
use lavish_fashion.Orders.{
  Order, OrderStatus, same_status, placed, packing, shipped, out_for_delivery, delivered, cancelled,
}
use lavish_fashion.Orders.World.{World, find_order}
use lavish_fashion.Orders.Cancel.{Setting, perform_order_cancellation}
use lavish_fashion.Orders.Status.{
  Additional, add_to, add_to_found, mark_delivered, mark_status, deliver, write_status, notify,
  deliver_effects, is_repeated_cancellation, change_status, validate_order_status_transition,
  apply_order_status_transition,
}
use lavish_fashion.Orders.Requests.{update_order_status, cancel_user_order}
use lavish_fashion.Orders.Final.{notify-loyalty}
use lavish_fashion.Orders.Absorb.{Request, by_admin, by_user, handle, handle_all, user-cancels}
use lavish_fashion.Orders.Books.{cancellation-leads, rewards-lead}
use lavish_fashion.Loyalty.{Store}
use lavish_fashion.Loyalty.Points.{write_order}
use lavish_fashion.Loyalty.Writes.{Steps}
use lavish_fashion.Loyalty.Points.Booked.{IsBooked, book_steps}
use lavish_fashion.Loyalty.Points.Backed.{IsBacked, cover_steps}

module _ {R : Store → Store → Type 0} (steps : Steps R)
    (orders : (k : ℕ) (f : Order → Order) (s : Store) → R s (write_order k f s)) where
  adds : (k : ℕ) (additional : Additional) (w : World) → R w.loyalty (add_to k additional w).loyalty
  adds k none w = steps.gain.same w.loyalty
  adds k (some f) w = orders k (λ x. record x { shiprocket = f x.shiprocket }) w.loyalty

  adds_to_found :
      (k : ℕ) (additional : Additional) (s : Store) (r : Option Order × World)
      → R s r.1.loyalty
      → R s (add_to_found k additional r).loyalty
  adds_to_found k additional s (none, w) h = h
  adds_to_found k additional s (some o, w) h =
      steps.gain.chain s w.loyalty (add_to k additional w).loyalty h (adds k additional w)

  delivers :
      (now : ℕ) (additional : Additional) (c : Order) (w : World)
      → R w.loyalty (deliver now additional c w).1.loyalty
  unfolding deliver
  delivers now additional c w = elim (Option-cases (find_order c.id w)) [
    | inl missing ↦ rw (missing, deliver) (steps.gain.same w.loyalty)
    | inr (o, there) ↦ elim (Bool-cases (same_status o.status delivered)) [
      | inl over ↦ rw (there, deliver) (rw over (adds c.id additional w))
      | inr going ↦
          rw (there, deliver) (rw going (orders c.id (mark_delivered now additional c) w.loyalty))
    ]
  ]

  writes_status :
      (setting : Setting) (now : ℕ) (c : Order) (status : OrderStatus) (additional : Additional)
      (w : World)
      → R w.loyalty (write_status setting now c status additional w).1.loyalty
  unfolding write_status
  writes_status setting now c cancelled additional w =
      adds_to_found c.id additional w.loyalty (perform_order_cancellation setting now c w)
        (cancellation-leads steps orders setting now c w)
  writes_status setting now c delivered additional w = delivers now additional c w
  writes_status setting now c placed additional w =
      orders c.id (mark_status placed additional) w.loyalty
  writes_status setting now c packing additional w =
      orders c.id (mark_status packing additional) w.loyalty
  writes_status setting now c shipped additional w =
      orders c.id (mark_status shipped additional) w.loyalty
  writes_status setting now c out_for_delivery additional w =
      orders c.id (mark_status out_for_delivery additional) w.loyalty

  effects :
      (setting : Setting) (now : ℕ) (c : Order) (b : Bool) (updated : Option Order) (w : World)
      → R w.loyalty (deliver_effects setting now c b updated w).loyalty
  unfolding deliver_effects
  effects setting now c true (some u) w = rewards-lead steps orders setting now c u w
  effects setting now c true none w = steps.gain.same w.loyalty
  effects setting now c false updated w = steps.gain.same w.loyalty

  changes :
      (setting : Setting) (now : ℕ) (c : Order) (status : OrderStatus) (additional : Additional)
      (w : World)
      → R w.loyalty (change_status setting now c status additional w).1.loyalty
  unfolding change_status
  changes setting now c status additional w =
      elim (Bool-cases (is_repeated_cancellation c.status status)) [
        | inl again ↦ rw again (adds c.id additional w)
        | inr first ↦
            let r = write_status setting now c status additional w in
            let updated = find_order c.id r.1 in
            let told = notify status updated r.1 in
            let after = deliver_effects setting now c r.0 updated told in
            rw first (
              steps.gain.chain w.loyalty r.1.loyalty after.loyalty
                (writes_status setting now c status additional w)
                (subst (λ s. R s after.loyalty) (notify-loyalty status updated r.1)
                  (effects setting now c r.0 updated told)))
      ]

  pub applies :
      (setting : Setting) (now : ℕ) (c : Order) (status : OrderStatus) (additional : Additional)
      (w : World)
      → R w.loyalty (apply_order_status_transition setting now c status additional w).1.loyalty
  unfolding apply_order_status_transition
  applies setting now c status additional w =
      elim (Result-cases (validate_order_status_transition c.status status)) [
        | inl (e, bad) ↦ rw (bad, apply_order_status_transition) (steps.gain.same w.loyalty)
        | inr (u, good) ↦
            rw (good, apply_order_status_transition) (changes setting now c status additional w)
      ]

  updates :
      (setting : Setting) (now k : ℕ) (status : OrderStatus) (w : World)
      → R w.loyalty (update_order_status setting now k status w).1.loyalty
  unfolding update_order_status
  updates setting now k status w = elim (Option-cases (find_order k w)) [
    | inl missing ↦ rw (missing, update_order_status) (steps.gain.same w.loyalty)
    | inr (o, there) ↦ rw (there, update_order_status) (applies setting now o status none w)
  ]

  user_cancels :
      (setting : Setting) (now user k : ℕ) (w : World)
      → R w.loyalty (cancel_user_order setting now user k w).1.loyalty
  user_cancels setting now user k w = elim (user-cancels setting now user k w) [
    | inl nothing ↦ rw nothing (steps.gain.same w.loyalty)
    | inr (o, there, fresh, does) ↦ rw does (cancellation-leads steps orders setting now o w)
  ]

  pub requests-lead :
      (setting : Setting) (rs : List Request) (w : World)
      → R w.loyalty (handle_all setting rs w).loyalty
  unfolding handle_all handle
  requests-lead setting [] w = steps.gain.same w.loyalty
  requests-lead setting (by_admin now k status ∷ rs) w =
      let w' = handle setting (by_admin now k status) w in
      steps.gain.chain w.loyalty w'.loyalty (handle_all setting rs w').loyalty
        (updates setting now k status w) (requests-lead setting rs w')
  requests-lead setting (by_user now user k ∷ rs) w =
      let w' = handle setting (by_user now user k) w in
      steps.gain.chain w.loyalty w'.loyalty (handle_all setting rs w').loyalty
        (user_cancels setting now user k w) (requests-lead setting rs w')

-- Over any sequence of status changes by admins and cancellations by users, deliveries with their
-- rewards included, the points of all users together change by exactly what the transactions that
-- were written meanwhile add up to.
pub requests-Booked :
    (setting : Setting) (rs : List Request) (w : World)
    → IsBooked w.loyalty (handle_all setting rs w).loyalty
requests-Booked setting rs w = requests-lead book_steps (λ k f s. refl) setting rs w

-- Over any such sequence no user comes to have more points reserved than there are.
pub requests-Backed :
    (setting : Setting) (rs : List Request) (w : World)
    → IsBacked w.loyalty
    → IsBacked (handle_all setting rs w).loyalty
requests-Backed setting rs w h = requests-lead cover_steps (λ k f s h. h) setting rs w h
