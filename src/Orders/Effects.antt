-- ===== src/Orders/Effects.antt =====
-- What follows a cancellation or a delivery keeps the status of every order.
use lavish_fashion.Prelude.{
  ℕ, ◌≡◌, refl, ap, ◌∙◌, inl, inr, Bool, true, false, Option, none, some, List, [], ◌∷◌, ltb,
  find_by, update_by, Bool-cases, Option-cases, arith,
}
use lavish_fashion.Orders.{
  Order, OrderStatus, same_status, delivered, order_key, no_cancel_error, not_configured,
}
use lavish_fashion.Orders.World.{World, find_order, send, review_request_mail, order_delivered_mail}
use lavish_fashion.Orders.Kept.{standing_of, standing, standing_steps, set_order-standing}
use lavish_fashion.Orders.Cancel.{
  Setting, set_shiprocket, is_cancel_done, note_attempt, note_answer, cancel_shiprocket_for_order,
  release_inventory_for_order, release_points_if, should_release_loyalty, after_cancellation,
}
use lavish_fashion.Orders.Delivery.{
  mark_reminded, id_of, remind_for, mail_referrer, mail_referral, mail_referral_if, mail_delivered,
  order_points, referral_points, reminded, reward_delivery, user_of,
  process_delivered_order_effects,
}
use lavish_fashion.Loyalty.{User}
use lavish_fashion.Loyalty.Points.{find_user, finalize_reserved_loyalty_redemption}
use lavish_fashion.Loyalty.Rewards.{RewardSummary}
use lavish_fashion.Loyalty.Writes.{finalize-follows, release-follows, rewards-follow}

abbrev pub first_of : {A B : Type 0} → Option (A × B) → Option A
first_of none = none
first_of (some p) = some p.0

abbrev pub status_at : ℕ → World → Option OrderStatus
status_at k w = first_of (standing k w)

pub shiprocket-standing :
    (setting : Setting) (now : ℕ) (o : Order) (k : ℕ) (w : World)
    → standing k (cancel_shiprocket_for_order setting now o w) ≡ standing k w
unfolding cancel_shiprocket_for_order
shiprocket-standing setting now o k w = elim (Option-cases o.shiprocket.order_id) [
  | inl missing ↦ rw missing refl
  | inr (j, there) ↦ elim (Bool-cases (is_cancel_done o.shiprocket.cancel_status)) [
    | inl over ↦ rw (there, over) refl
    | inr going ↦ elim (Bool-cases setting.configured) [
      | inl on ↦
          rw (there, going, on)
            (set_order-standing k o.id
                (λ x. record x {
                  shiprocket = note_answer now (setting.cancel_upstream j) x.shiprocket;
                })
                (set_shiprocket o.id (note_attempt now no_cancel_error) w) (λ x. (refl, refl, refl))
              ∙ set_order-standing k o.id
                  (λ x. record x { shiprocket = note_attempt now no_cancel_error x.shiprocket }) w
                  (λ x. (refl, refl, refl)))
      | inr off ↦
          rw (there, going, off)
            (set_order-standing k o.id
              (λ x. record x { shiprocket = note_attempt now not_configured x.shiprocket }) w
              (λ x. (refl, refl, refl)))
    ]
  ]
]

pub release_points-standing :
    (b : Bool) (now : ℕ) (o : Order) (k : ℕ) (w : World)
    → standing k (release_points_if b now o w) ≡ standing k w
unfolding release_points_if
release_points-standing false now o k w = refl
release_points-standing true now o k w = release-follows (standing_steps k) now o w.loyalty

update-status :
    (k j : ℕ) (f : Order → Order) (os : List Order)
    → ((o : Order) → (f o).id ≡ o.id)
    → ((o : Order) → (f o).status ≡ o.status)
    → first_of (standing_of (find_by order_key k (update_by order_key j f os)))
      ≡ first_of (standing_of (find_by order_key k os))
update-status k j f [] same kept = refl
update-status k j f (o ∷ os) same kept =
    ground (arith, same o, kept o, update-status k j f os same kept)

pub inventory-status :
    (o : Order) (k : ℕ) (w : World) → status_at k (release_inventory_for_order o w) ≡ status_at k w
unfolding release_inventory_for_order
inventory-status o k w = elim (Bool-cases o.inventory_reserved) [
  | inl held ↦ rw held (
      update-status k o.id (λ x. record x { inventory_reserved = false }) w.loyalty.orders
        (λ x. refl) (λ x. refl))
  | inr free ↦ rw free refl
]

pub after_cancellation-status :
    (setting : Setting) (now : ℕ) (existing updated : Order) (k : ℕ) (w : World)
    → status_at k (after_cancellation setting now existing updated w) ≡ status_at k w
unfolding after_cancellation
after_cancellation-status setting now existing updated k w =
    let points = release_points_if (should_release_loyalty existing) now existing w in
    let stock = release_inventory_for_order existing points in
    ap first_of (shiprocket-standing setting now updated k stock)
    ∙ inventory-status existing k points
    ∙ ap first_of (release_points-standing (should_release_loyalty existing) now existing k w)

pub remind-standing :
    (now j : ℕ) (user : Option User) (t : Option ℕ) (k : ℕ) (w : World)
    → standing k (remind_for now j user t w) ≡ standing k w
unfolding remind_for
remind-standing now j user (some t) k w = refl
remind-standing now j user none k w =
    set_order-standing k j (mark_reminded now) (send (review_request_mail (id_of user)) w)
      (λ x. (refl, refl, refl))

mail_referrer-loyalty : (r : Option User) (w : World) → (mail_referrer r w).loyalty ≡ w.loyalty
unfolding mail_referrer
mail_referrer-loyalty none w = refl
mail_referrer-loyalty (some r) w = refl

mail_referral-loyalty :
    (u : User) (by : Option ℕ) (w : World) → (mail_referral u by w).loyalty ≡ w.loyalty
unfolding mail_referral
mail_referral-loyalty u none w = refl
mail_referral-loyalty u (some r) w = mail_referrer-loyalty (find_user r w.loyalty) w

pub mail_if-loyalty :
    (b : Bool) (user : Option User) (w : World) → (mail_referral_if b user w).loyalty ≡ w.loyalty
unfolding mail_referral_if
mail_if-loyalty true (some u) w = mail_referral-loyalty u u.referred_by w
mail_if-loyalty true none w = refl
mail_if-loyalty false user w = refl

mail_delivered-standing :
    (now j : ℕ) (summary : Option RewardSummary) (o : Option Order) (user : Option User) (k : ℕ)
    (w : World)
    → standing k (mail_delivered now j summary o user w) ≡ standing k w
unfolding mail_delivered
mail_delivered-standing now j summary o user k w =
    let mailed = send (order_delivered_mail (id_of user) (order_points summary)) w in
    let asked = remind_for now j user (reminded o) mailed in
    ap (λ s. standing_of (find_by order_key k s.orders))
      (mail_if-loyalty (ltb 0 (referral_points summary)) user asked)
    ∙ remind-standing now j user (reminded o) k mailed

pub process_delivered-standing :
    (setting : Setting) (now : ℕ) (existing updated : Order) (k : ℕ) (w : World)
    → standing k (process_delivered_order_effects setting now existing updated w) ≡ standing k w
unfolding process_delivered_order_effects
process_delivered-standing setting now existing updated k w =
    elim (Bool-cases (same_status updated.status delivered)) [
      | inr elsewhere ↦ rw elsewhere refl
      | inl there ↦
          let (summary, w') = reward_delivery setting now updated w in
          let paid = (finalize_reserved_loyalty_redemption now updated w.loyalty).1 in
          rw there (
            mail_delivered-standing now updated.id summary (find_order updated.id w')
              (user_of existing.user_id w') k w'
            ∙ rewards-follow (standing_steps k) setting.rewards now updated paid
            ∙ finalize-follows (standing_steps k) now updated w.loyalty)
    ]
