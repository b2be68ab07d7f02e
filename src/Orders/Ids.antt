-- ===== src/Orders/Ids.antt =====
-- No change of an order's status adds, removes or renames an order.
use lavish_fashion.Prelude.{
  ℕ, ◌≡◌, refl, ap, ◌∙◌, inl, inr, Bool, true, false, Option, none, some, List, [], ◌∷◌, map, ltb,
  update_by, Bool-cases, Option-cases, arith,
}
use lavish_fashion.Orders.{
  Order, OrderStatus, same_status, placed, packing, shipped, out_for_delivery, delivered, cancelled,
  order_key, no_cancel_error, not_configured,
}
use lavish_fashion.Orders.Kept.{view_steps}
use lavish_fashion.Orders.World.{
  World, find_order, set_order, send, review_request_mail, order_delivered_mail,
}
use lavish_fashion.Orders.Cancel.{
  Setting, set_shiprocket, is_cancel_done, note_attempt, note_answer, cancel_shiprocket_for_order,
  release_inventory_for_order, release_points_if, should_release_loyalty, after_cancellation,
  mark_cancelled, perform_order_cancellation,
}
use lavish_fashion.Orders.Delivery.{
  mark_reminded, id_of, remind_for, mail_delivered, order_points, referral_points, reminded,
  reward_delivery, user_of, process_delivered_order_effects,
}
use lavish_fashion.Orders.Status.{
  Additional, add_to, add_to_found, mark_delivered, mark_status, deliver, write_status, notify,
  deliver_effects, is_repeated_cancellation, change_status,
}
use lavish_fashion.Orders.Effects.{mail_if-loyalty}
use lavish_fashion.Orders.Moves.{
  mark_delivered-moves, mark_status-moves, perform_missing, perform_again, perform_done,
}
use lavish_fashion.Orders.Final.{notify-loyalty}
use lavish_fashion.Loyalty.{User, Store}
use lavish_fashion.Loyalty.Points.{finalize_reserved_loyalty_redemption}
use lavish_fashion.Loyalty.Rewards.{RewardSummary}
use lavish_fashion.Loyalty.Writes.{Steps, finalize-follows, release-follows, rewards-follow}

abbrev pub ids_of : Store → List ℕ
ids_of s = map order_key s.orders

abbrev pub ids : World → List ℕ
ids w = ids_of w.loyalty

ids-update :
    (k : ℕ) (f : Order → Order) (os : List Order)
    → ((o : Order) → (f o).id ≡ o.id)
    → map order_key (update_by order_key k f os) ≡ map order_key os
ids-update k f [] same = refl
ids-update k f (o ∷ os) same = ground (arith, same o, ids-update k f os same)

pub ids-set_order :
    (k : ℕ) (f : Order → Order) (w : World)
    → ((o : Order) → (f o).id ≡ o.id)
    → ids (set_order k f w) ≡ ids w
ids-set_order k f w same = ids-update k f w.loyalty.orders same

abbrev pub KeepsIds : Store → Store → Type 0
KeepsIds s t = ids_of t ≡ ids_of s

pub ids_steps : Steps KeepsIds
ids_steps =
    view_steps (λ os. map order_key os) (λ j f os about. ids-update j f os (λ o. (about o).0))

-- A cancellation, and what follows it.
pub shiprocket-ids :
    (setting : Setting) (now : ℕ) (o : Order) (w : World)
    → ids (cancel_shiprocket_for_order setting now o w) ≡ ids w
unfolding cancel_shiprocket_for_order
shiprocket-ids setting now o w = elim (Option-cases o.shiprocket.order_id) [
  | inl missing ↦ rw missing refl
  | inr (j, there) ↦ elim (Bool-cases (is_cancel_done o.shiprocket.cancel_status)) [
    | inl over ↦ rw (there, over) refl
    | inr going ↦ elim (Bool-cases setting.configured) [
      | inl on ↦
          rw (there, going, on)
            (ids-set_order o.id
                (λ x. record x {
                  shiprocket = note_answer now (setting.cancel_upstream j) x.shiprocket;
                })
                (set_shiprocket o.id (note_attempt now no_cancel_error) w) (λ x. refl)
              ∙ ids-set_order o.id
                  (λ x. record x { shiprocket = note_attempt now no_cancel_error x.shiprocket }) w
                  (λ x. refl))
      | inr off ↦
          rw (there, going, off)
            (ids-set_order o.id
              (λ x. record x { shiprocket = note_attempt now not_configured x.shiprocket }) w
              (λ x. refl))
    ]
  ]
]

pub release_points-ids :
    (b : Bool) (now : ℕ) (o : Order) (w : World) → ids (release_points_if b now o w) ≡ ids w
unfolding release_points_if
release_points-ids false now o w = refl
release_points-ids true now o w = release-follows ids_steps now o w.loyalty

pub inventory-ids : (o : Order) (w : World) → ids (release_inventory_for_order o w) ≡ ids w
unfolding release_inventory_for_order
inventory-ids o w = elim (Bool-cases o.inventory_reserved) [
  | inl held ↦
      rw held (
        ids-update o.id (λ x. record x { inventory_reserved = false }) w.loyalty.orders (λ x. refl))
  | inr free ↦ rw free refl
]

after_cancellation-ids :
    (setting : Setting) (now : ℕ) (existing updated : Order) (w : World)
    → ids (after_cancellation setting now existing updated w) ≡ ids w
unfolding after_cancellation
after_cancellation-ids setting now existing updated w =
    let points = release_points_if (should_release_loyalty existing) now existing w in
    let stock = release_inventory_for_order existing points in
    shiprocket-ids setting now updated stock
    ∙ inventory-ids existing points
    ∙ release_points-ids (should_release_loyalty existing) now existing w

perform-ids :
    (setting : Setting) (now : ℕ) (c : Order) (w : World)
    → ids (perform_order_cancellation setting now c w).1 ≡ ids w
perform-ids setting now c w = elim (Option-cases (find_order c.id w)) [
  | inl missing ↦ rw (perform_missing setting now c w missing) refl
  | inr (o, there) ↦ elim (Bool-cases (same_status o.status cancelled)) [
    | inl over ↦ rw (perform_again setting now c o w there over) refl
    | inr going ↦ rw (perform_done setting now c o w there going) (
        after_cancellation-ids setting now c (mark_cancelled now c o)
          (set_order c.id (mark_cancelled now c) w)
        ∙ ids-set_order c.id (mark_cancelled now c) w (λ x. refl))
  ]
]

-- A delivery, and what follows it.
add_to-ids : (k : ℕ) (additional : Additional) (w : World) → ids (add_to k additional w) ≡ ids w
add_to-ids k none w = refl
add_to-ids k (some f) w =
    ids-set_order k (λ x. record x { shiprocket = f x.shiprocket }) w (λ x. refl)

add_to_found-ids :
    (k : ℕ) (additional : Additional) (r : Option Order × World)
    → ids (add_to_found k additional r) ≡ ids r.1
add_to_found-ids k additional (none, w) = refl
add_to_found-ids k additional (some o, w) = add_to-ids k additional w

pub deliver-ids :
    (now : ℕ) (additional : Additional) (c : Order) (w : World)
    → ids (deliver now additional c w).1 ≡ ids w
unfolding deliver
deliver-ids now additional c w = elim (Option-cases (find_order c.id w)) [
  | inl missing ↦ rw (missing, deliver) refl
  | inr (o, there) ↦ elim (Bool-cases (same_status o.status delivered)) [
    | inl over ↦ rw (there, deliver) (rw over (add_to-ids c.id additional w))
    | inr going ↦
        rw (there, deliver)
          (rw going (
            ids-set_order c.id (mark_delivered now additional c) w
              (λ x. (mark_delivered-moves now additional c x).0)))
  ]
]

pub remind-ids :
    (now j : ℕ) (user : Option User) (t : Option ℕ) (w : World)
    → ids (remind_for now j user t w) ≡ ids w
unfolding remind_for
remind-ids now j user (some t) w = refl
remind-ids now j user none w =
    ids-set_order j (mark_reminded now) (send (review_request_mail (id_of user)) w) (λ x. refl)

mail_delivered-ids :
    (now j : ℕ) (summary : Option RewardSummary) (o : Option Order) (user : Option User) (w : World)
    → ids (mail_delivered now j summary o user w) ≡ ids w
unfolding mail_delivered
mail_delivered-ids now j summary o user w =
    let mailed = send (order_delivered_mail (id_of user) (order_points summary)) w in
    let asked = remind_for now j user (reminded o) mailed in
    ap ids_of (mail_if-loyalty (ltb 0 (referral_points summary)) user asked)
    ∙ remind-ids now j user (reminded o) mailed

process_delivered-ids :
    (setting : Setting) (now : ℕ) (existing updated : Order) (w : World)
    → ids (process_delivered_order_effects setting now existing updated w) ≡ ids w
unfolding process_delivered_order_effects
process_delivered-ids setting now existing updated w =
    elim (Bool-cases (same_status updated.status delivered)) [
      | inr elsewhere ↦ rw elsewhere refl
      | inl there ↦
          let (summary, w') = reward_delivery setting now updated w in
          let paid = (finalize_reserved_loyalty_redemption now updated w.loyalty).1 in
          rw there (
            mail_delivered-ids now updated.id summary (find_order updated.id w')
              (user_of existing.user_id w') w'
            ∙ rewards-follow ids_steps setting.rewards now updated paid
            ∙ finalize-follows ids_steps now updated w.loyalty)
    ]

pub plain-ids :
    (c : Order) (status : OrderStatus) (additional : Additional) (w : World)
    → ids (set_order c.id (mark_status status additional) w) ≡ ids w
plain-ids c status additional w =
    ids-set_order c.id (mark_status status additional) w
      (λ x. (mark_status-moves status additional x).0)

write_status-ids :
    (setting : Setting) (now : ℕ) (c : Order) (status : OrderStatus) (additional : Additional)
    (w : World)
    → ids (write_status setting now c status additional w).1 ≡ ids w
unfolding write_status
write_status-ids setting now c cancelled additional w =
    add_to_found-ids c.id additional (perform_order_cancellation setting now c w)
    ∙ perform-ids setting now c w
write_status-ids setting now c delivered additional w = deliver-ids now additional c w
write_status-ids setting now c placed additional w = plain-ids c placed additional w
write_status-ids setting now c packing additional w = plain-ids c packing additional w
write_status-ids setting now c shipped additional w = plain-ids c shipped additional w
write_status-ids setting now c out_for_delivery additional w =
    plain-ids c out_for_delivery additional w

effects-ids :
    (setting : Setting) (now : ℕ) (c : Order) (b : Bool) (updated : Option Order) (w : World)
    → ids (deliver_effects setting now c b updated w) ≡ ids w
unfolding deliver_effects
effects-ids setting now c true (some u) w = process_delivered-ids setting now c u w
effects-ids setting now c true none w = refl
effects-ids setting now c false updated w = refl

pub change_status-ids :
    (setting : Setting) (now : ℕ) (c : Order) (status : OrderStatus) (additional : Additional)
    (w : World)
    → ids (change_status setting now c status additional w).1 ≡ ids w
unfolding change_status
change_status-ids setting now c status additional w =
    elim (Bool-cases (is_repeated_cancellation c.status status)) [
      | inl again ↦ rw again (add_to-ids c.id additional w)
      | inr first ↦
          let r = write_status setting now c status additional w in
          let updated = find_order c.id r.1 in
          rw first (
            effects-ids setting now c r.0 updated (notify status updated r.1)
            ∙ ap ids_of (notify-loyalty status updated r.1)
            ∙ write_status-ids setting now c status additional w)
    ]
