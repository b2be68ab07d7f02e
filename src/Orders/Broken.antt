-- ===== src/Orders/Broken.antt =====
-- `applyOrderStatusTransition` of server/services/orderStatusService.js where something throws after
-- its write of the status: the parts that come after the write, the first `n` of which happen.
pub mod Keeps
use lavish_fashion.Prelude.{
  ℕ, zero, suc, Bool, true, false, Option, none, some, List, [], ◌∷◌, if◌then◌else◌,
}
use lavish_fashion.Orders.{Order, OrderStatus, same_status, delivered, cancelled}
use lavish_fashion.Orders.World.{World, find_order, set_order, send, order_delivered_mail}
use lavish_fashion.Orders.Cancel.{
  Setting, should_release_loyalty, release_points_if, release_inventory_for_order,
  cancel_shiprocket_for_order, mark_cancelled,
}
use lavish_fashion.Orders.Delivery.{
  id_of, remind_for, order_points, reminded, reward_delivery, user_of,
}
use lavish_fashion.Orders.Status.{
  Additional, mark_status, deliver, notify, is_repeated_cancellation,
}
use lavish_fashion.Loyalty.Points.{finalize_reserved_loyalty_redemption}
use lavish_fashion.Loyalty.Rewards.{award_order_delivery_rewards}

unfoldable pub run_first : ℕ → List (World → World) → World → World
run_first zero parts w = w
run_first (suc n) [] w = w
run_first (suc n) (part ∷ parts) w = run_first n parts (part w)

-- Behind the guarded write of a cancellation.
abbrev pub cancel_parts : Setting → ℕ → Order → Order → List (World → World)
cancel_parts setting now passed updated =
    release_points_if (should_release_loyalty passed) now passed
    ∷ release_inventory_for_order passed
    ∷ cancel_shiprocket_for_order setting now updated
    ∷ []

-- Behind the guarded write of a delivery, which left `w`: the message, the points, the rewards and
-- the mails; if the last mails, to the two of a referral, throw, all of these happened.
abbrev pub deliver_parts : Setting → ℕ → Order → Bool → Option Order → World → List (World → World)
deliver_parts setting now passed true (some u) w =
    let (summary, rewarded) = reward_delivery setting now u w in
    let user = user_of passed.user_id rewarded in
    notify delivered (some u)
    ∷ (λ v. record v { loyalty = (finalize_reserved_loyalty_redemption now u v.loyalty).1 })
    ∷ (λ v. record v { loyalty = (award_order_delivery_rewards setting.rewards now u v.loyalty).1 })
    ∷ send (order_delivered_mail (id_of user) (order_points summary))
    ∷ remind_for now u.id user (reminded (find_order u.id rewarded))
    ∷ []
deliver_parts setting now passed _ updated w = notify delivered updated ∷ []

-- For the other statuses only the message comes after the write.
unfoldable pub broken_write : ℕ → Setting → ℕ → Order → OrderStatus → Additional → World → World
unfolding run_first deliver mark_status same_status
broken_write n setting now passed cancelled additional w = elim (find_order passed.id w) [
  | none ↦ w
  | some o ↦
      if same_status o.status cancelled
      then w
      else run_first n (cancel_parts setting now passed (mark_cancelled now passed o))
          (set_order passed.id (mark_cancelled now passed) w)
]
broken_write n setting now passed delivered additional w =
    let (rewards, w') = deliver now additional passed w in
    run_first n (deliver_parts setting now passed rewards (find_order passed.id w') w') w'
broken_write n setting now passed status additional w =
    set_order passed.id (mark_status status additional) w

-- A repeated cancellation has one write only, which throws.
unfoldable pub broken_change : ℕ → Setting → ℕ → Order → OrderStatus → Additional → World → World
unfolding broken_write
broken_change n setting now passed status additional w =
    if is_repeated_cancellation passed.status status
    then w
    else broken_write n setting now passed status additional w
