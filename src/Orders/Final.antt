-- ===== src/Orders/Final.antt =====
-- The status after a request, and that a delivered or cancelled order stays so.
use lavish_fashion.Prelude.{
  ℕ, ◌≡◌, ◌≢◌, refl, sym, ap, ◌∙◌, inl, inr, Bool, true, false, Option, none, some, find_by,
  Bool-cases, Option-cases, arith,
}
use lavish_fashion.Orders.{
  Order, OrderStatus, same_status, placed, packing, shipped, out_for_delivery, delivered, cancelled,
  order_key,
}
use lavish_fashion.Orders.World.{World, find_order, set_order}
use lavish_fashion.Orders.Kept.{standing_of}
use lavish_fashion.Orders.Cancel.{Setting, perform_order_cancellation}
use lavish_fashion.Orders.Status.{
  Additional, mark_delivered, mark_status, deliver, write_status, notify, deliver_effects,
  is_repeated_cancellation, change_status,
}
use lavish_fashion.Orders.Effects.{first_of, status_at, process_delivered-standing}
use lavish_fashion.Orders.Moves.{
  same_status-eq, set-status, set-other, add_to-status, add_to_found-status, mark_delivered-moves,
  mark_status-moves, perform-status, perform-other,
}

-- `status` is what the order has afterwards, if it is there.
WritesStatus : Setting → ℕ → Order → OrderStatus → Additional → World → Type 0
WritesStatus setting now c status additional w =
    ((o : Order)
      → find_order c.id w ≡ some o
      → status_at c.id (write_status setting now c status additional w).1 ≡ some status)
    × ((k : ℕ)
        → c.id ≢ k
        → status_at k (write_status setting now c status additional w).1 ≡ status_at k w)

pub plain_write :
    (c : Order) (status : OrderStatus) (additional : Additional) (w : World)
    → ((o : Order)
        → find_order c.id w ≡ some o
        → status_at c.id (set_order c.id (mark_status status additional) w) ≡ some status)
      × ((k : ℕ)
          → c.id ≢ k
          → status_at k (set_order c.id (mark_status status additional) w) ≡ status_at k w)
plain_write c status additional w = (
  λ o there.
      set-status c.id (mark_status status additional) o w there
        (mark_status-moves status additional o).0
      ∙ ap some (mark_status-moves status additional o).1,
  λ k apart.
      set-other k c.id (mark_status status additional) w
        (λ x. (mark_status-moves status additional x).0) apart,
)

pub deliver-status :
    (now : ℕ) (additional : Additional) (c o : Order) (w : World)
    → find_order c.id w ≡ some o
    → status_at c.id (deliver now additional c w).1 ≡ some delivered
unfolding deliver
deliver-status now additional c o w there = elim (Bool-cases (same_status o.status delivered)) [
  | inl over ↦
      rw (there, deliver)
        (rw over (
          add_to-status c.id c.id additional w
          ∙ ap (λ x. first_of (standing_of x)) there
          ∙ ap some (same_status-eq o.status delivered over)))
  | inr going ↦
      rw (there, deliver)
        (rw going (
          set-status c.id (mark_delivered now additional c) o w there
            (mark_delivered-moves now additional c o).0
          ∙ ap some (mark_delivered-moves now additional c o).1))
]

pub deliver-other :
    (now : ℕ) (additional : Additional) (c : Order) (k : ℕ) (w : World)
    → c.id ≢ k
    → status_at k (deliver now additional c w).1 ≡ status_at k w
unfolding deliver
deliver-other now additional c k w apart = elim (Option-cases (find_order c.id w)) [
  | inl missing ↦ rw (missing, deliver) refl
  | inr (o, there) ↦ elim (Bool-cases (same_status o.status delivered)) [
    | inl over ↦ rw (there, deliver) (rw over (add_to-status k c.id additional w))
    | inr going ↦
        rw (there, deliver)
          (rw going (
            set-other k c.id (mark_delivered now additional c) w
              (λ x. (mark_delivered-moves now additional c x).0) apart))
  ]
]

write_status-WritesStatus :
    (setting : Setting) (now : ℕ) (c : Order) (status : OrderStatus) (additional : Additional)
    (w : World)
    → WritesStatus setting now c status additional w
unfolding WritesStatus write_status
write_status-WritesStatus setting now c placed additional w = plain_write c placed additional w
write_status-WritesStatus setting now c packing additional w = plain_write c packing additional w
write_status-WritesStatus setting now c shipped additional w = plain_write c shipped additional w
write_status-WritesStatus setting now c out_for_delivery additional w =
    plain_write c out_for_delivery additional w
write_status-WritesStatus setting now c delivered additional w = (
  λ o there. deliver-status now additional c o w there,
  λ k apart. deliver-other now additional c k w apart,
)
write_status-WritesStatus setting now c cancelled additional w = (
  λ o there.
      add_to_found-status c.id c.id additional (perform_order_cancellation setting now c w)
      ∙ perform-status setting now c o w there,
  λ k apart.
      add_to_found-status k c.id additional (perform_order_cancellation setting now c w)
      ∙ perform-other setting now c k w apart,
)

pub notify-loyalty :
    (status : OrderStatus) (o : Option Order) (w : World) → (notify status o w).loyalty ≡ w.loyalty
unfolding notify
notify-loyalty placed o w = refl
notify-loyalty packing o w = refl
notify-loyalty shipped o w = refl
notify-loyalty cancelled o w = refl
notify-loyalty out_for_delivery none w = refl
notify-loyalty out_for_delivery (some o) w = refl
notify-loyalty delivered none w = refl
notify-loyalty delivered (some o) w = refl

effects-status :
    (setting : Setting) (now : ℕ) (c : Order) (rewards : Bool) (updated : Option Order) (k : ℕ)
    (w : World)
    → status_at k (deliver_effects setting now c rewards updated w) ≡ status_at k w
unfolding deliver_effects
effects-status setting now c true (some updated) k w =
    ap first_of (process_delivered-standing setting now c updated k w)
effects-status setting now c true none k w = refl
effects-status setting now c false updated k w = refl

-- A change that is no repeated cancellation ends as its write does.
pub change-status :
    (setting : Setting) (now : ℕ) (c : Order) (status : OrderStatus) (additional : Additional)
    (k : ℕ) (w : World)
    → is_repeated_cancellation c.status status ≡ false
    → status_at k (change_status setting now c status additional w).1
      ≡ status_at k (write_status setting now c status additional w).1
unfolding change_status
change-status setting now c status additional k w first =
    let r = write_status setting now c status additional w in
    let updated = find_order c.id r.1 in
    rw first (
      effects-status setting now c r.0 updated k (notify status updated r.1)
      ∙ ap (λ l. first_of (standing_of (find_by order_key k l.orders)))
          (notify-loyalty status updated r.1))

pub repeated_is_cancelled :
    (old new : OrderStatus)
    → is_repeated_cancellation old new ≡ true
    → (old ≡ cancelled) × (new ≡ cancelled)
unfolding same_status
repeated_is_cancelled old new h = ground arith

pub change-moves :
    (setting : Setting) (now : ℕ) (o : Order) (status : OrderStatus) (additional : Additional)
    (w : World)
    → find_order o.id w ≡ some o
    → status_at o.id (change_status setting now o status additional w).1 ≡ some status
unfolding change_status WritesStatus
change-moves setting now o status additional w there =
    elim (Bool-cases (is_repeated_cancellation o.status status)) [
      | inl again ↦
          let (old, new) = repeated_is_cancelled o.status status again in
          rw again (
            add_to-status o.id o.id additional w
            ∙ ap (λ x. first_of (standing_of x)) there
            ∙ ap some (old ∙ sym new))
      | inr first ↦
          change-status setting now o status additional o.id w first
          ∙ (write_status-WritesStatus setting now o status additional w).0 o there
    ]

pub change-other :
    (setting : Setting) (now : ℕ) (c : Order) (status : OrderStatus) (additional : Additional)
    (k : ℕ) (w : World)
    → c.id ≢ k
    → status_at k (change_status setting now c status additional w).1 ≡ status_at k w
unfolding change_status WritesStatus
change-other setting now c status additional k w apart =
    elim (Bool-cases (is_repeated_cancellation c.status status)) [
      | inl again ↦ rw again (add_to-status k c.id additional w)
      | inr first ↦
          change-status setting now c status additional k w first
          ∙ (write_status-WritesStatus setting now c status additional w).1 k apart
    ]
