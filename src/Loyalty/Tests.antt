-- ===== src/Loyalty/Tests.antt =====
-- Instances of the theorems on loyalty points.
use lavish_fashion.Prelude.{
  ℕ, ◌+◌, ◌-◌, ◌*◌, ◌≤◌, ◌≡◌, refl, true, false, Option, none, some, [], ◌∷◌, ◌++◌, ok, find_by,
  sub_ℕ, arith,
}
use lavish_fashion.Orders.{delivered, Order, reserved, order_key}
use lavish_fashion.Orders.Samples.{a_purchase}
use lavish_fashion.Loyalty.{User, Store, points_redeemed_entry, other_entry}
use lavish_fashion.Loyalty.Redeem.{
  Rules, Redemption, calculate_loyalty_redemption, redemption_bounds,
}
use lavish_fashion.Loyalty.Points.{
  find_user, spend, finalize_reserved_loyalty_redemption, release_reserved_loyalty_redemption,
}
use lavish_fashion.Loyalty.Points.Backed.{IsBacked, writes-Backed}
use lavish_fashion.Loyalty.Rewards.{RewardRules, award_order_delivery_rewards}
use lavish_fashion.Loyalty.Rewards.Once.{Unchanged, rewards_once}
use lavish_fashion.Loyalty.Writes.{gains, reserves, finalizes, writes}
use lavish_fashion.Loyalty.Points.Redeemed.{finalize_once, finalize_stale_copy}

abbrev ann : User
ann = record {
  id = 4;
  loyalty_points = 500;
  reserved_loyalty_points = 200;
  lifetime_loyalty_points = 1_600;
  referred_by = none;
  referral_reward_unlocked = false;
  successful_referral_count = 0;
}

abbrev bag : Order
bag = record a_purchase {
  id = 9;
  user_id = some 4;
  points_redeemed = 100;
  redemption_status = reserved;
  payment = true;
}

abbrev shop : Store
shop = record { users = ann ∷ []; orders = bag ∷ []; transactions = [] }

abbrev rules : Rules
rules = record {
  point_value = 100_000_000;
  min_redeem_points = 50;
  max_redeem_share = 50_000_000;
  max_redeem_points_per_order = 500;
}

abbrev sixty : Redemption
sixty = record {
  points_redeemed = 60;
  discount_amount = 6_000_000_000;
  available_points = 300;
  max_redeemable_points = 250;
}

abbrev the_cap : Option ℕ
the_cap = none

redeems_sixty : calculate_loyalty_redemption rules ann 60 50_000_000_000 none ≡ ok sixty
unfolding calculate_loyalty_redemption
redeems_sixty = refl

redemption_bounds_example :
    (sixty.points_redeemed ≡ 60)
    × (200 + 60 ≤ 500)
    × (50 ≤ 60)
    × (60 * 100_000_000 ≤ 50_000_000_000)
    × ((c : ℕ) → (the_cap ≡ some c) → 60 ≤ c)
redemption_bounds_example =
    redemption_bounds rules ann 60 50_000_000_000 none sixty redeems_sixty (omega arith)

writes-Backed_example :
    IsBacked
      (writes (reserves (some 4) 250 ∷ gains (some 4) 10 other_entry ∷ finalizes 5 bag ∷ []) shop)
writes-Backed_example =
    writes-Backed (reserves (some 4) 250 ∷ gains (some 4) 10 other_entry ∷ finalizes 5 bag ∷ [])
      shop (omega arith, tt)

finalize_once_example :
    let after = (finalize_reserved_loyalty_redemption 7 bag shop).1 in
    (o' : Order) × (find_by order_key 9 after.orders ≡ some o')
    × (find_user 4 after ≡ some (spend 100 ann))
    × (after.transactions
        ≡ []
          ++ record {
            user_id = 4;
            type = points_redeemed_entry;
            points = sub_ℕ 0 100;
            balance_after = 500 - 100;
          }
            ∷ [])
    × ((later : ℕ) → finalize_reserved_loyalty_redemption later o' after ≡ (none, after))
    × ((later : ℕ) → release_reserved_loyalty_redemption later o' after ≡ (none, after))
finalize_once_example =
    finalize_once 7 4 bag ann shop refl (omega arith) refl refl (omega arith) (omega arith) refl

finalize_stale_copy_example :
    find_user 4
      (finalize_reserved_loyalty_redemption 8 bag
        (finalize_reserved_loyalty_redemption 7 bag shop).1).1
    ≡ some (spend 100 (spend 100 ann))
finalize_stale_copy_example =
    finalize_stale_copy 7 4 bag ann shop refl (omega arith) refl refl (omega arith) (omega arith)
      (omega arith) (omega arith) 8

abbrev reward_rules : RewardRules
reward_rules = record {
  points_divisor = none;
  min_order_points = none;
  referrer_points = none;
  new_customer_points = none;
}

abbrev parcel : Order
parcel = record bag { status = delivered }

abbrev depot : Store
depot = record shop { orders = parcel ∷ [] }

rewards_once_example :
    let after = (award_order_delivery_rewards reward_rules 20 parcel depot).1 in
    (o' : Order) × (find_by order_key 9 after.orders ≡ some o')
    × Unchanged after (award_order_delivery_rewards reward_rules 30 o' after).1
rewards_once_example = rewards_once reward_rules 20 30 parcel depot refl
