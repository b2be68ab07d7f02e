-- ===== src/Loyalty/Rewards.antt =====
-- The rewards of a delivered order in server/services/loyaltyService.js: points for the order, and
-- those of a referral, which each user has at most one of.
pub mod Gains
pub mod Due
pub mod Once
use lavish_fashion.Prelude.{
  ℕ, ◌+◌, ◌*◌, ◌/◌, max, Bool, true, false, not, ◌&&◌, Option, none, some, ◌==◌, if◌then◌else◌, pos,
}
use lavish_fashion.Inventory.{or_default}
use lavish_fashion.Orders.{Order, delivered, same_status}
use lavish_fashion.Loyalty.{
  User, TransactionType, order_delivered_entry, referral_referrer_entry,
  referral_new_customer_entry, Store,
}
use lavish_fashion.Loyalty.Points.{find_user, write_user, write_order, award_loyalty_points, or_now}

-- The environment, each value as `Number` reads it: `none` where it is no number, and for the
-- referral also where it is negative. A negative divisor or minimum is 0, as the code makes it.
-- The divisor counts hundred-millionths.
pub record RewardRules : Type 0 where
  pub points_divisor : Option ℕ
  pub min_order_points : Option ℕ
  pub referrer_points : Option ℕ
  pub new_customer_points : Option ℕ

abbrev pub one_rupee : ℕ
one_rupee = 100_000_000

unfoldable pub calculated_order_points : RewardRules → ℕ → ℕ
calculated_order_points rules amount =
    max (or_default 10 rules.min_order_points)
      (amount / max (or_default (100 * one_rupee) rules.points_divisor) one_rupee)

pub record RewardSummary : Type 0 where
  pub awarded_order_points : ℕ
  pub referrer_points : ℕ
  pub new_customer_points : ℕ

-- The points of the order, unless the order says that they were awarded.
unfoldable pub award_order_points : RewardRules → Order → ℕ → Option ℕ → Store → ℕ × Store
unfolding calculated_order_points
award_order_points rules o k (some t) s = (o.points_awarded, s)
award_order_points rules o k none s =
    let points = calculated_order_points rules o.amount in
    (points, (award_loyalty_points (some k) (pos points) order_delivered_entry s).1)

abbrev pub unlock : User → User
unlock u = record u { referral_reward_unlocked = true }

same_referrer : ℕ → Option ℕ → Bool
same_referrer r none = false
same_referrer r (some r') = r' == r

-- The filter of the guarded write.
unfoldable pub can_claim : ℕ → User → Bool
unfolding same_referrer
can_claim r u = same_referrer r u.referred_by && not u.referral_reward_unlocked

unfoldable pub claim_referral_reward_unlock : ℕ → ℕ → Store → Bool × Store
unfolding can_claim
claim_referral_reward_unlock k r s = elim (find_user k s) [
  | none ↦ (false, s)
  | some u ↦ if can_claim r u then (true, write_user k unlock s) else (false, s)
]

abbrev pub count_referral : User → User
count_referral u = record u { successful_referral_count = u.successful_referral_count + 1 }

abbrev pub points_if : ℕ → Option User → ℕ
points_if n none = 0
points_if n (some u) = n

abbrev pub counted_if : ℕ → Option User → Store → Store
counted_if r none s = s
counted_if r (some u) s = write_user r count_referral s

-- Both rewards, behind the claim.
unfoldable pub grant_referral : RewardRules → ℕ → ℕ → ℕ → Store → RewardSummary × Store
grant_referral rules points k r s =
    let a = or_default 120 rules.referrer_points in
    let b = or_default 60 rules.new_customer_points in
    let (referrer, s1) = award_loyalty_points (some r) (pos a) referral_referrer_entry s in
    let (newcomer, s2) = award_loyalty_points (some k) (pos b) referral_new_customer_entry s1 in
    (
      record {
        awarded_order_points = points;
        referrer_points = points_if a referrer;
        new_customer_points = points_if b newcomer;
      },
      counted_if r referrer s2,
    )

abbrev pub no_referral : ℕ → RewardSummary
no_referral points = record {
  awarded_order_points = points;
  referrer_points = 0;
  new_customer_points = 0;
}

unfoldable pub grant_if : RewardRules → ℕ → ℕ → ℕ → Bool × Store → RewardSummary × Store
unfolding grant_referral
grant_if rules points k r (true, s) = grant_referral rules points k r s
grant_if rules points k r (false, s) = (no_referral points, s)

-- `u` is the user as read before the points of the order were awarded.
unfoldable pub reward_referral : RewardRules → ℕ → User → Option ℕ → Store → RewardSummary × Store
unfolding grant_if claim_referral_reward_unlock
reward_referral rules points u none s = (no_referral points, s)
reward_referral rules points u (some r) s =
    if not u.referral_reward_unlocked && not (u.id == r)
    then grant_if rules points u.id r (claim_referral_reward_unlock u.id r s)
    else (no_referral points, s)

-- The write to the order that both ends of the function make.
abbrev pub mark_rewarded : ℕ → ℕ → Order → Order → Order
mark_rewarded now points passed o = record o {
  delivered_at = or_now now passed.delivered_at;
  points_awarded = points;
  awarded_at = or_now now passed.awarded_at;
}

abbrev pub close_rewards : ℕ → Order → RewardSummary × Store → Option RewardSummary × Store
close_rewards now o (summary, s) =
    (some summary, write_order o.id (mark_rewarded now summary.awarded_order_points o) s)

unfoldable pub reward_user : RewardRules → ℕ → Order → User → Store → Option RewardSummary × Store
unfolding award_order_points reward_referral
reward_user rules now o u s =
    let (points, s') = award_order_points rules o u.id o.awarded_at s in
    close_rewards now o (reward_referral rules points u u.referred_by s')

unfoldable pub reward_of :
    RewardRules → ℕ → Order → Option User → Store → Option RewardSummary × Store
unfolding reward_user
reward_of rules now o none s = (none, s)
reward_of rules now o (some u) s = reward_user rules now o u s

unfoldable pub award_order_delivery_rewards :
    RewardRules → ℕ → Order → Store → Option RewardSummary × Store
unfolding reward_of
award_order_delivery_rewards rules now o s = elim o.user_id [
  | none ↦ (none, s)
  | some k ↦
      if same_status o.status delivered then reward_of rules now o (find_user k s) s else (none, s)
]
