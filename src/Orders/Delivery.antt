-- ===== src/Orders/Delivery.antt =====
-- processDeliveredOrderEffects of server/services/orderStatusService.js: the reserved points are
-- spent, the rewards given, and the mails queued.
use lavish_fashion.Prelude.{ℕ, ltb, Bool, true, Option, none, some, if◌then◌else◌}
use lavish_fashion.Orders.{Order, same_status, delivered}
use lavish_fashion.Orders.World.{
  World, find_order, set_order, send, order_delivered_mail, review_request_mail,
  referral_referrer_mail, referral_new_customer_mail,
}
use lavish_fashion.Loyalty.{User}
use lavish_fashion.Loyalty.Points.{find_user, finalize_reserved_loyalty_redemption}
use lavish_fashion.Loyalty.Rewards.{RewardSummary, award_order_delivery_rewards}
use lavish_fashion.Orders.Cancel.{Setting}

abbrev pub mark_reminded : ℕ → Order → Order
mark_reminded now o = record o { review_reminder_queued_at = some now }

abbrev pub reminded : Option Order → Option ℕ
reminded none = none
reminded (some o) = o.review_reminder_queued_at

abbrev pub id_of : Option User → Option ℕ
id_of none = none
id_of (some u) = some u.id

unfoldable pub remind_for : ℕ → ℕ → Option User → Option ℕ → World → World
remind_for now k user (some t) w = w
remind_for now k user none w =
    set_order k (mark_reminded now) (send (review_request_mail (id_of user)) w)

unfoldable pub mail_referrer : Option User → World → World
mail_referrer none w = w
mail_referrer (some r) w = send (referral_referrer_mail (some r.id)) w

-- Behind the tests that the referrer got points and that the user was referred.
unfoldable pub mail_referral : User → Option ℕ → World → World
unfolding mail_referrer
mail_referral u none w = w
mail_referral u (some r) w =
    send (referral_new_customer_mail (some u.id)) (mail_referrer (find_user r w.loyalty) w)

abbrev pub order_points : Option RewardSummary → ℕ
order_points none = 0
order_points (some s) = s.awarded_order_points

abbrev pub referral_points : Option RewardSummary → ℕ
referral_points none = 0
referral_points (some s) = s.referrer_points

unfoldable pub mail_referral_if : Bool → Option User → World → World
unfolding mail_referral
mail_referral_if true (some u) w = mail_referral u u.referred_by w
mail_referral_if _ _ w = w

-- The mails, with the order and the user as read again.
unfoldable pub mail_delivered :
    ℕ → ℕ → Option RewardSummary → Option Order → Option User → World → World
unfolding remind_for mail_referral_if
mail_delivered now k summary o user w = mail_referral_if (ltb 0 (referral_points summary)) user (
    remind_for now k user (reminded o)
      (send (order_delivered_mail (id_of user) (order_points summary)) w))

abbrev pub user_of : Option ℕ → World → Option User
user_of none w = none
user_of (some k) w = find_user k w.loyalty

-- The writes to the points, before the mails: the reserved points are spent and the rewards given.
abbrev pub reward_delivery : Setting → ℕ → Order → World → Option RewardSummary × World
reward_delivery setting now updated w =
    let paid = (finalize_reserved_loyalty_redemption now updated w.loyalty).1 in
    let (summary, loyalty) = award_order_delivery_rewards setting.rewards now updated paid in
    (summary, record w { loyalty = loyalty })

unfoldable pub process_delivered_order_effects : Setting → ℕ → Order → Order → World → World
unfolding mail_delivered same_status
process_delivered_order_effects setting now existing updated w =
    if same_status updated.status delivered
    then (let (summary, w') = reward_delivery setting now updated w in
        mail_delivered now updated.id summary (find_order updated.id w')
          (user_of existing.user_id w') w')
    else w
