-- ===== src/Orders/Moves.antt =====
-- Where an order stands after a change of its status, and that all others stand where they stood.
use lavish_fashion.Prelude.{
  ℕ, ◌≡◌, ◌≢◌, refl, ap, ◌∙◌, inl, inr, Bool, true, false, not, ◌&&◌, Option, none, some,
  find_by-update_by_self, find_by-update_by_ne, Bool-cases, Option-cases, arith,
}
use lavish_fashion.Orders.{Order, OrderStatus, same_status, delivered, cancelled, order_key}
use lavish_fashion.Orders.World.{World, find_order, set_order}
use lavish_fashion.Orders.Kept.{standing_of, set_order-standing}
use lavish_fashion.Orders.Cancel.{
  Setting, mark_cancelled, after_cancellation, perform_order_cancellation,
}
use lavish_fashion.Orders.Status.{
  Additional, add_to, with_additional, pays_on_delivery, mark_paid_on_delivery, delivered_time,
  mark_delivered, mark_status, add_to_found,
}
use lavish_fashion.Orders.Effects.{first_of, status_at, after_cancellation-status}

pub same_status-eq : (a b : OrderStatus) → same_status a b ≡ true → a ≡ b
unfolding same_status
same_status-eq a b h = ground arith

pub same_status_refl : (a : OrderStatus) → same_status a a ≡ true
unfolding same_status
same_status_refl a = ground arith

pub set-status :
    (k : ℕ) (f : Order → Order) (o : Order) (w : World)
    → find_order k w ≡ some o
    → (f o).id ≡ o.id
    → status_at k (set_order k f w) ≡ some (f o).status
set-status k f o w there same =
    ap (λ x. first_of (standing_of x))
      (find_by-update_by_self order_key k f w.loyalty.orders o same there)

pub set-other :
    (k j : ℕ) (f : Order → Order) (w : World)
    → ((o : Order) → (f o).id ≡ o.id)
    → j ≢ k
    → status_at k (set_order j f w) ≡ status_at k w
set-other k j f w same apart =
    ap (λ x. first_of (standing_of x))
      (find_by-update_by_ne order_key j k f w.loyalty.orders same apart)

pub add_to-status :
    (k j : ℕ) (additional : Additional) (w : World)
    → status_at k (add_to j additional w) ≡ status_at k w
add_to-status k j none w = refl
add_to-status k j (some f) w = ap first_of (
    set_order-standing k j (λ x. record x { shiprocket = f x.shiprocket }) w
      (λ x. (refl, refl, refl)))

pub add_to_found-status :
    (k j : ℕ) (additional : Additional) (r : Option Order × World)
    → status_at k (add_to_found j additional r) ≡ status_at k r.1
add_to_found-status k j additional (none, w) = refl
add_to_found-status k j additional (some o, w) = add_to-status k j additional w

-- What the update of a status is made of.
with_additional-keeps :
    (additional : Additional) (o : Order)
    → ((with_additional additional o).id ≡ o.id)
      × ((with_additional additional o).status ≡ o.status)
with_additional-keeps none o = (refl, refl)
with_additional-keeps (some f) o = (refl, refl)

paid-keeps :
    (b : Bool) (now : ℕ) (o : Order)
    → ((mark_paid_on_delivery b now o).id ≡ o.id)
      × ((mark_paid_on_delivery b now o).status ≡ o.status)
paid-keeps false now o = (refl, refl)
paid-keeps true now o = (refl, refl)

time-keeps :
    (now : ℕ) (t : Option ℕ) (o : Order)
    → ((delivered_time now t o).id ≡ o.id) × ((delivered_time now t o).status ≡ o.status)
time-keeps now none o = (refl, refl)
time-keeps now (some t) o = (refl, refl)

pub mark_delivered-moves :
    (now : ℕ) (additional : Additional) (passed o : Order)
    → ((mark_delivered now additional passed o).id ≡ o.id)
      × ((mark_delivered now additional passed o).status ≡ delivered)
unfolding mark_delivered
mark_delivered-moves now additional passed o =
    let paid = pays_on_delivery passed.payment_method && not passed.payment in
    let a = with_additional additional (record o { status = delivered }) in
    let b = mark_paid_on_delivery paid now a in
    let (id1, st1) = with_additional-keeps additional (record o { status = delivered }) in
    let (id2, st2) = paid-keeps paid now a in
    let (id3, st3) = time-keeps now passed.delivered_at b in (id3 ∙ id2 ∙ id1, st3 ∙ st2 ∙ st1)

pub mark_status-moves :
    (status : OrderStatus) (additional : Additional) (o : Order)
    → ((mark_status status additional o).id ≡ o.id)
      × ((mark_status status additional o).status ≡ status)
unfolding mark_status
mark_status-moves status additional o =
    with_additional-keeps additional (record o { status = status })

-- The branches of a cancellation.
pub perform_missing :
    (setting : Setting) (now : ℕ) (c : Order) (w : World)
    → find_order c.id w ≡ none
    → perform_order_cancellation setting now c w ≡ (none, w)
unfolding perform_order_cancellation
perform_missing setting now c w missing = rw (missing, perform_order_cancellation) refl

pub perform_again :
    (setting : Setting) (now : ℕ) (c o : Order) (w : World)
    → find_order c.id w ≡ some o
    → same_status o.status cancelled ≡ true
    → perform_order_cancellation setting now c w ≡ (some o, w)
unfolding perform_order_cancellation
perform_again setting now c o w there over = rw (there, perform_order_cancellation) (rw over refl)

pub perform_done :
    (setting : Setting) (now : ℕ) (c o : Order) (w : World)
    → find_order c.id w ≡ some o
    → same_status o.status cancelled ≡ false
    → (perform_order_cancellation setting now c w).1
      ≡ after_cancellation setting now c
          (mark_cancelled now c o)
          (set_order c.id (mark_cancelled now c) w)
unfolding perform_order_cancellation
perform_done setting now c o w there going = rw (there, perform_order_cancellation) (rw going refl)

pub perform-status :
    (setting : Setting) (now : ℕ) (c o : Order) (w : World)
    → find_order c.id w ≡ some o
    → status_at c.id (perform_order_cancellation setting now c w).1 ≡ some cancelled
perform-status setting now c o w there = elim (Bool-cases (same_status o.status cancelled)) [
  | inl over ↦
      rw (perform_again setting now c o w there over) (
        ap (λ x. first_of (standing_of x)) there ∙ ap some (same_status-eq o.status cancelled over))
  | inr going ↦ rw (perform_done setting now c o w there going) (
      after_cancellation-status setting now c (mark_cancelled now c o) c.id
        (set_order c.id (mark_cancelled now c) w)
      ∙ set-status c.id (mark_cancelled now c) o w there refl)
]

pub perform-other :
    (setting : Setting) (now : ℕ) (c : Order) (k : ℕ) (w : World)
    → c.id ≢ k
    → status_at k (perform_order_cancellation setting now c w).1 ≡ status_at k w
perform-other setting now c k w apart = elim (Option-cases (find_order c.id w)) [
  | inl missing ↦ rw (perform_missing setting now c w missing) refl
  | inr (o, there) ↦ elim (Bool-cases (same_status o.status cancelled)) [
    | inl over ↦ rw (perform_again setting now c o w there over) refl
    | inr going ↦ rw (perform_done setting now c o w there going) (
        after_cancellation-status setting now c (mark_cancelled now c o) k
          (set_order c.id (mark_cancelled now c) w)
        ∙ set-other k c.id (mark_cancelled now c) w (λ x. refl) apart)
  ]
]
