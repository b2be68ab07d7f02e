-- ===== src/Loyalty.antt =====
-- server/services/loyaltyService.js: the points of users, their reservation for an order, and what
-- becomes of them. Points are whole numbers and ids are numbers. The children are Redeem (how many
-- points an order may take), Tier, and Points (the writes).
pub mod Redeem
pub mod Tier
pub mod Points
pub mod Rewards
pub mod Writes
mod Tests
use lavish_fashion.Prelude.{ℕ, Bool, Option, List, ℤ}
use lavish_fashion.Orders.{Order}

-- The loyalty fields of server/models/userModel.js; `referred_by` is `none` for the empty text.
pub record User : Type 0 where
  pub id : ℕ
  pub loyalty_points : ℕ
  pub reserved_loyalty_points : ℕ
  pub lifetime_loyalty_points : ℕ
  pub referred_by : Option ℕ
  pub referral_reward_unlocked : Bool
  pub successful_referral_count : ℕ

pub data TransactionType : Type 0 where
  points_redeemed_entry order_delivered_entry referral_referrer_entry referral_new_customer_entry
        other_entry :
      TransactionType

-- A document of server/models/loyaltyTransactionModel.js.
pub record Transaction : Type 0 where
  pub user_id : ℕ
  pub type : TransactionType
  pub points : ℤ
  pub balance_after : ℕ

pub record Store : Type 0 where
  pub users : List User
  pub orders : List Order
  pub transactions : List Transaction

abbrev pub user_key : User → ℕ
user_key u = u.id
