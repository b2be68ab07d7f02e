-- ===== src/Loyalty/Rewards/Gains.antt =====
-- What holds of the gains and of the rewards up to the write to the order, because it holds of each
-- write to a user.
use lavish_fashion.Prelude.{
  ℕ, suc, zero, inl, inr, Bool, true, false, not, ◌&&◌, Option, none, some, ◌==◌, Bool-cases,
  Option-cases, pos,
}
use lavish_fashion.Inventory.{or_default}
use lavish_fashion.Orders.{Order}
use lavish_fashion.Loyalty.{
  User, TransactionType, order_delivered_entry, referral_referrer_entry,
  referral_new_customer_entry, Store,
}
use lavish_fashion.Loyalty.Points.{find_user, write_user, award_to, award_loyalty_points}
use lavish_fashion.Loyalty.Rewards.{
  RewardRules, calculated_order_points, award_order_points, unlock, can_claim,
  claim_referral_reward_unlock, count_referral, counted_if, grant_referral, grant_if,
  reward_referral,
}

-- A relation between the store before and after, with a law for each write to a user.
pub record Gains (R : Store → Store → Type 0) : Type 0 where
  pub same : (s : Store) → R s s
  pub chain : (s t u : Store) → R s t → R t u → R s u
  pub award : (k n : ℕ) (type : TransactionType) (s : Store) → R s (award_to k (pos n) type s).1
  pub flag : (k : ℕ) (s : Store) → R s (write_user k unlock s)
  pub count : (k : ℕ) (s : Store) → R s (write_user k count_referral s)

module _ {R : Store → Store → Type 0} (gain : Gains R) where
  pub gain-follows :
      (user : Option ℕ) (n : ℕ) (type : TransactionType) (s : Store)
      → R s (award_loyalty_points user (pos n) type s).1
  unfolding award_loyalty_points
  gain-follows none n type s = gain.same s
  gain-follows (some k) zero type s = gain.same s
  gain-follows (some k) (suc n) type s = gain.award k (suc n) type s

  counted-follows : (r : ℕ) (u : Option User) (s : Store) → R s (counted_if r u s)
  counted-follows r none s = gain.same s
  counted-follows r (some u) s = gain.count r s

  pub granted-follows :
      (rules : RewardRules) (points k r : ℕ) (s : Store) → R s (grant_referral rules points k r s).1
  unfolding grant_referral
  granted-follows rules points k r s =
      let a = or_default 120 rules.referrer_points in
      let b = or_default 60 rules.new_customer_points in
      let first = award_loyalty_points (some r) (pos a) referral_referrer_entry s in
      let s2 = (award_loyalty_points (some k) (pos b) referral_new_customer_entry first.1).1 in
      gain.chain s s2 (counted_if r first.0 s2)
        (gain.chain s first.1 s2 (gain-follows (some r) a referral_referrer_entry s)
          (gain-follows (some k) b referral_new_customer_entry first.1))
        (counted-follows r first.0 s2)

  claim-follows : (k r : ℕ) (s : Store) → R s (claim_referral_reward_unlock k r s).1
  unfolding claim_referral_reward_unlock
  claim-follows k r s = elim (Option-cases (find_user k s)) [
    | inl missing ↦ rw (missing, claim_referral_reward_unlock) (gain.same s)
    | inr (u, there) ↦ elim (Bool-cases (can_claim r u)) [
      | inl can ↦ rw (there, claim_referral_reward_unlock) (rw can (gain.flag k s))
      | inr cannot ↦ rw (there, claim_referral_reward_unlock) (rw cannot (gain.same s))
    ]
  ]

  grant_if-follows :
      (rules : RewardRules) (points k r : ℕ) (s : Store) (c : Bool × Store)
      → R s c.1
      → R s (grant_if rules points k r c).1
  unfolding grant_if
  grant_if-follows rules points k r s (true, t) h =
      gain.chain s t (grant_referral rules points k r t).1 h (granted-follows rules points k r t)
  grant_if-follows rules points k r s (false, t) h = h

  pub referral-follows :
      (rules : RewardRules) (points : ℕ) (u : User) (referrer : Option ℕ) (s : Store)
      → R s (reward_referral rules points u referrer s).1
  unfolding reward_referral
  referral-follows rules points u none s = gain.same s
  referral-follows rules points u (some r) s =
      elim (Bool-cases (not u.referral_reward_unlocked && not (u.id == r))) [
        | inl due ↦ rw due (
            grant_if-follows rules points u.id r s (claim_referral_reward_unlock u.id r s)
              (claim-follows u.id r s))
        | inr not_due ↦ rw not_due (gain.same s)
      ]

  pub order_points-follows :
      (rules : RewardRules) (o : Order) (k : ℕ) (awarded : Option ℕ) (s : Store)
      → R s (award_order_points rules o k awarded s).1
  unfolding award_order_points
  order_points-follows rules o k (some t) s = gain.same s
  order_points-follows rules o k none s =
      gain-follows (some k) (calculated_order_points rules o.amount) order_delivered_entry s
