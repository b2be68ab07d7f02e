-- ===== src/Orders/Rewarded.antt =====
-- The effects of a delivery run once for an order.
use lavish_fashion.Prelude.{
  ℕ, ◌≡◌, refl, sym, ap, ◌∙◌, subst, inl, inr, false, Option, none, some, ok, Result-cases, arith,
}
use lavish_fashion.Orders.{Order, OrderStatus, same_status, delivered}
use lavish_fashion.Orders.World.{World, find_order}
use lavish_fashion.Orders.Cancel.{Setting}
use lavish_fashion.Orders.Status.{
  Additional, add_to, deliver, write_status, notify, deliver_effects, is_repeated_cancellation,
  change_status, validate_order_status_transition, apply_order_status_transition,
  is_finalized_order_status,
}
use lavish_fashion.Orders.Effects.{status_at}
use lavish_fashion.Orders.Moves.{same_status_refl}
use lavish_fashion.Orders.Final.{notify-loyalty, deliver-status, change-status}
use lavish_fashion.Orders.Once.{order_with}

-- No user, no transaction and no stock changes.
abbrev pub SameGoods : World → World → Type 0
SameGoods w w' =
    (w'.loyalty.users ≡ w.loyalty.users)
    × (w'.loyalty.transactions ≡ w.loyalty.transactions)
    × (w'.products ≡ w.products)

add_to-SameGoods :
    (k : ℕ) (additional : Additional) (w : World) → SameGoods w (add_to k additional w)
add_to-SameGoods k none w = (refl, refl, refl)
add_to-SameGoods k (some f) w = (refl, refl, refl)

deliver_again :
    (now : ℕ) (additional : Additional) (c : Order) (w : World)
    → status_at c.id w ≡ some delivered
    → deliver now additional c w ≡ (false, add_to c.id additional w)
unfolding deliver
deliver_again now additional c w at =
    let (o, there, is) = order_with c.id delivered w at in
    rw (there, deliver)
      (rw (ap (λ s. same_status s delivered) is ∙ same_status_refl delivered) refl)

notify_delivered-products :
    (o : Option Order) (w : World) → (notify delivered o w).products ≡ w.products
unfolding notify
notify_delivered-products none w = refl
notify_delivered-products (some o) w = refl

not_repeated : (old : OrderStatus) → is_repeated_cancellation old delivered ≡ false
unfolding same_status
not_repeated old = ground arith

change_again :
    (setting : Setting) (now : ℕ) (c : Order) (additional : Additional) (w : World)
    → status_at c.id w ≡ some delivered
    → SameGoods w (change_status setting now c delivered additional w).1
unfolding change_status write_status deliver_effects
change_again setting now c additional w at =
    let added = add_to c.id additional w in
    let updated = find_order c.id added in
    let (users, transactions, products) = add_to-SameGoods c.id additional w in
    (rw (deliver_again now additional c w at) (
      ap (λ l. l.users) (notify-loyalty delivered updated added) ∙ users,
      ap (λ l. l.transactions) (notify-loyalty delivered updated added) ∙ transactions,
      notify_delivered-products updated added ∙ products,
    ))

apply_again :
    (setting : Setting) (now : ℕ) (c : Order) (additional : Additional) (w : World)
    → status_at c.id w ≡ some delivered
    → SameGoods w (apply_order_status_transition setting now c delivered additional w).1
unfolding apply_order_status_transition
apply_again setting now c additional w at =
    elim (Result-cases (validate_order_status_transition c.status delivered)) [
      | inl (e, bad) ↦ rw (bad, apply_order_status_transition) (refl, refl, refl)
      | inr (u, good) ↦
          rw (good, apply_order_status_transition) (change_again setting now c additional w at)
    ]

validate_delivers :
    (old : OrderStatus)
    → is_finalized_order_status old ≡ false
    → validate_order_status_transition old delivered ≡ ok tt
unfolding validate_order_status_transition is_finalized_order_status same_status
validate_delivers old h = ground arith

apply_delivers :
    (setting : Setting) (now : ℕ) (c o : Order) (additional : Additional) (w : World)
    → find_order c.id w ≡ some o
    → is_finalized_order_status c.status ≡ false
    → status_at c.id (apply_order_status_transition setting now c delivered additional w).1
      ≡ some delivered
unfolding apply_order_status_transition write_status
apply_delivers setting now c o additional w there going =
    rw (validate_delivers c.status going, apply_order_status_transition)
      (change-status setting now c delivered additional c.id w (not_repeated c.status)
        ∙ deliver-status now additional c o w there)

-- A change to delivered, with a copy of a stored order that is not final, makes the stored one
-- delivered. Every further change to delivered, with a copy of the same order of any age (so also one
-- that was read before the first), leaves all users, transactions and stocks as they are.
pub deliver_once :
    (setting : Setting) (now : ℕ) (c o : Order) (additional : Additional) (w : World)
    → find_order c.id w ≡ some o
    → is_finalized_order_status c.status ≡ false
    → let w' = (apply_order_status_transition setting now c delivered additional w).1 in
      (status_at c.id w' ≡ some delivered)
      × ((later : ℕ) (d : Order) (more : Additional)
          → d.id ≡ c.id
          → SameGoods w' (apply_order_status_transition setting later d delivered more w').1)
deliver_once setting now c o additional w there going =
    let w' = (apply_order_status_transition setting now c delivered additional w).1 in
    let at = apply_delivers setting now c o additional w there going in
    (
      at,
      λ later d more same.
          apply_again setting later d more w'
            (subst (λ i. status_at i w' ≡ some delivered) (sym same) at),
    )
