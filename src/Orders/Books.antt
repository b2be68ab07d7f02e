-- ===== src/Orders/Books.antt =====
-- What a cancellation and a delivery do to the points of the users.
pub mod Requests
use lavish_fashion.Prelude.{
  ℕ, ◌≡◌, refl, inl, inr, Bool, true, false, not, Option, none, some, List, [], ◌∷◌, Result, ok,
  err, ltb, ◌==◌, if◌then◌else◌, Bool-cases, Option-cases, Result-cases,
}
use lavish_fashion.Orders.{
  Order, OrderStatus, same_status, placed, packing, shipped, out_for_delivery, delivered, cancelled,
  no_cancel_error,
}
use lavish_fashion.Orders.World.{
  World, find_order, set_order, send, review_request_mail, order_delivered_mail,
}
use lavish_fashion.Orders.Cancel.{
  Setting, set_shiprocket, mark_cancelled, is_cancel_done, note_attempt, note_answer,
  cancel_shiprocket_for_order, release_inventory_for_order, release_points_if,
  should_release_loyalty, after_cancellation, perform_order_cancellation,
}
use lavish_fashion.Orders.Delivery.{
  id_of, remind_for, mark_reminded, mail_delivered, order_points, referral_points, reminded,
  reward_delivery, user_of, process_delivered_order_effects,
}
use lavish_fashion.Orders.Status.{
  Additional, add_to, add_to_found, mark_delivered, mark_status, deliver, write_status, notify,
  deliver_effects, is_repeated_cancellation, change_status, validate_order_status_transition,
  apply_order_status_transition,
}
use lavish_fashion.Orders.Requests.{update_order_status, cancel_user_order}
use lavish_fashion.Orders.Effects.{mail_if-loyalty}
use lavish_fashion.Orders.Moves.{perform_missing, perform_again, perform_done}
use lavish_fashion.Orders.Final.{notify-loyalty}
use lavish_fashion.Orders.Absorb.{Request, by_admin, by_user, handle, handle_all, user-cancels}
use lavish_fashion.Loyalty.{User, Store}
use lavish_fashion.Loyalty.Points.{
  write_order, finalize_reserved_loyalty_redemption, release_reserved_loyalty_redemption,
}
use lavish_fashion.Loyalty.Rewards.{RewardSummary, award_order_delivery_rewards}
use lavish_fashion.Loyalty.Writes.{Steps, finalize-follows, release-follows, rewards-follow}
use lavish_fashion.Loyalty.Points.Booked.{IsBooked, book_steps}
use lavish_fashion.Loyalty.Points.Backed.{IsBacked, cover_steps}

-- A relation of the loyalty service's collections that holds of each of its writes and of every write
-- to an order.
module _ {R : Store → Store → Type 0} (steps : Steps R)
    (orders : (k : ℕ) (f : Order → Order) (s : Store) → R s (write_order k f s)) where
  -- What a world becomes, as far as the loyalty service sees it.
  Leads : World → World → Type 0
  Leads w w' = R w.loyalty w'.loyalty

  goes_on : (u v w : World) → Leads u v → Leads v w → Leads u w
  unfolding Leads
  goes_on u v w first second = steps.gain.chain u.loyalty v.loyalty w.loyalty first second

  sets : (k : ℕ) (f : Order → Order) (w : World) → Leads w (set_order k f w)
  unfolding Leads
  sets k f w = orders k f w.loyalty

  stays : (w : World) → Leads w w
  unfolding Leads
  stays w = steps.gain.same w.loyalty

  same_loyalty : (w v : World) → v.loyalty ≡ w.loyalty → Leads w v
  unfolding Leads
  same_loyalty w v e = rw e (steps.gain.same w.loyalty)

  adds : (k : ℕ) (additional : Additional) (w : World) → Leads w (add_to k additional w)
  adds k none w = stays w
  adds k (some f) w = sets k (λ x. record x { shiprocket = f x.shiprocket }) w

  mirrors :
      (setting : Setting) (now : ℕ) (o : Order) (w : World)
      → Leads w (cancel_shiprocket_for_order setting now o w)
  unfolding cancel_shiprocket_for_order Leads
  mirrors setting now o w = elim (Option-cases o.shiprocket.order_id) [
    | inl missing ↦ rw missing (stays w)
    | inr (j, there) ↦ elim (Bool-cases (is_cancel_done o.shiprocket.cancel_status)) [
      | inl over ↦ rw (there, over) (stays w)
      | inr going ↦ elim (Bool-cases setting.configured) [
        | inl on ↦
            let tried = set_shiprocket o.id (note_attempt now no_cancel_error) w in
            rw (there, going, on)
              (goes_on w tried
                (set_shiprocket o.id (note_answer now (setting.cancel_upstream j)) tried)
                (orders o.id _ w.loyalty) (orders o.id _ tried.loyalty))
        | inr off ↦ rw (there, going, off) (orders o.id _ w.loyalty)
      ]
    ]
  ]

  gives_back_points :
      (b : Bool) (now : ℕ) (o : Order) (w : World) → Leads w (release_points_if b now o w)
  unfolding release_points_if Leads
  gives_back_points false now o w = stays w
  gives_back_points true now o w = release-follows steps now o w.loyalty

  gives_back_stock : (o : Order) (w : World) → Leads w (release_inventory_for_order o w)
  unfolding release_inventory_for_order Leads
  gives_back_stock o w = elim (Bool-cases o.inventory_reserved) [
    | inl held ↦ rw held (orders o.id _ w.loyalty)
    | inr free ↦ rw free (stays w)
  ]

  cancels :
      (setting : Setting) (now : ℕ) (c u : Order) (w : World)
      → Leads w (after_cancellation setting now c u w)
  unfolding after_cancellation
  cancels setting now c u w =
      let points = release_points_if (should_release_loyalty c) now c w in
      let stock = release_inventory_for_order c points in
      goes_on w stock (cancel_shiprocket_for_order setting now u stock)
        (goes_on w points stock (gives_back_points (should_release_loyalty c) now c w)
          (gives_back_stock c points))
        (mirrors setting now u stock)

  pub cancellation-leads :
      (setting : Setting) (now : ℕ) (c : Order) (w : World)
      → R w.loyalty (perform_order_cancellation setting now c w).1.loyalty
  unfolding Leads
  cancellation-leads setting now c w = elim (Option-cases (find_order c.id w)) [
    | inl missing ↦ rw (perform_missing setting now c w missing) (stays w)
    | inr (o, there) ↦ elim (Bool-cases (same_status o.status cancelled)) [
      | inl over ↦ rw (perform_again setting now c o w there over) (stays w)
      | inr going ↦
          let marked = set_order c.id (mark_cancelled now c) w in
          rw (perform_done setting now c o w there going) (
            goes_on w marked (after_cancellation setting now c (mark_cancelled now c o) marked)
              (sets c.id (mark_cancelled now c) w)
              (cancels setting now c (mark_cancelled now c o) marked))
    ]
  ]

  reminds :
      (now k : ℕ) (user : Option User) (t : Option ℕ) (w : World)
      → Leads w (remind_for now k user t w)
  unfolding remind_for Leads
  reminds now k user (some t) w = stays w
  reminds now k user none w = sets k (mark_reminded now) (send (review_request_mail (id_of user)) w)

  mails :
      (now k : ℕ) (summary : Option RewardSummary) (o : Option Order) (user : Option User)
      (w : World)
      → Leads w (mail_delivered now k summary o user w)
  unfolding mail_delivered
  mails now k summary o user w =
      let mailed = send (order_delivered_mail (id_of user) (order_points summary)) w in
      let asked = remind_for now k user (reminded o) mailed in
      goes_on w asked (mail_delivered now k summary o user w)
        (goes_on w mailed asked (same_loyalty w mailed refl)
          (reminds now k user (reminded o) mailed))
        (same_loyalty asked (mail_delivered now k summary o user w)
          (mail_if-loyalty (ltb 0 (referral_points summary)) user asked))

  pub rewards-lead :
      (setting : Setting) (now : ℕ) (c u : Order) (w : World)
      → R w.loyalty (process_delivered_order_effects setting now c u w).loyalty
  unfolding process_delivered_order_effects Leads
  rewards-lead setting now c u w = elim (Bool-cases (same_status u.status delivered)) [
    | inr elsewhere ↦ rw elsewhere (stays w)
    | inl there ↦
        let (summary, w') = reward_delivery setting now u w in
        let paid = (finalize_reserved_loyalty_redemption now u w.loyalty).1 in
        let mailed =
          mail_delivered now u.id summary (find_order u.id w') (user_of c.user_id w') w' in
        rw there (
          goes_on w w' mailed
            (steps.gain.chain w.loyalty paid w'.loyalty (finalize-follows steps now u w.loyalty)
              (rewards-follow steps setting.rewards now u paid))
            (mails now u.id summary (find_order u.id w') (user_of c.user_id w') w'))
  ]
