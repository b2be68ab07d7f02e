-- ===== src/Loyalty/Tier.antt =====
-- `determineLoyaltyTier` of server/services/loyaltyService.js.
use lavish_fashion.Prelude.{
  ℕ, ◌-◌, ◌≤◌, ◌<◌, ◌≡◌, ◌↔◌, Option, none, some, List, [], ◌∷◌, leb, if◌then◌else◌, arith,
}

pub data TierName : Type 0 where
  bronze silver gold platinum : TierName

pub record LoyaltyTier : Type 0 where
  pub name : TierName
  pub threshold : ℕ

abbrev tier : TierName → ℕ → LoyaltyTier
tier n t = record { name = n; threshold = t }

abbrev pub loyalty_tiers : List LoyaltyTier
loyalty_tiers = tier bronze 0 ∷ tier silver 500 ∷ tier gold 1_500 ∷ tier platinum 3_000 ∷ []

-- The `forEach`: the last tier whose threshold is reached, beside what follows it in the list.
pub reached : ℕ → LoyaltyTier × List LoyaltyTier → List LoyaltyTier → LoyaltyTier × List LoyaltyTier
reached points current [] = current
reached points current (t ∷ ts) =
    reached points (if leb t.threshold points then (t, ts) else current) ts

pub record TierInfo : Type 0 where
  pub current_tier : TierName
  pub next_tier : Option TierName
  pub points_to_next_tier : ℕ
  pub next_tier_threshold : Option ℕ

describe : ℕ → LoyaltyTier × List LoyaltyTier → TierInfo
describe points (current, []) = record {
  current_tier = current.name;
  next_tier = none;
  points_to_next_tier = 0;
  next_tier_threshold = none;
}
describe points (current, next ∷ _) = record {
  current_tier = current.name;
  next_tier = some next.name;
  points_to_next_tier = next.threshold - points;
  next_tier_threshold = some next.threshold;
}

-- The list starts with Bronze.
unfoldable pub determine_loyalty_tier : ℕ → TierInfo
unfolding reached describe
determine_loyalty_tier points = describe points (
    reached points (tier bronze 0, tier silver 500 ∷ tier gold 1_500 ∷ tier platinum 3_000 ∷ [])
      loyalty_tiers)

-- The points at which a tier starts, and the tier after it.
abbrev pub start_of : TierName → ℕ
start_of bronze = 0
start_of silver = 500
start_of gold = 1_500
start_of platinum = 3_000

abbrev pub above : TierName → Option TierName
above bronze = some silver
above silver = some gold
above gold = some platinum
above platinum = none

abbrev pub IsBelow : ℕ → Option TierName → Type 0
IsBelow points none = Unit
IsBelow points (some t) = points < start_of t

abbrev pub distance_to : ℕ → Option TierName → ℕ
distance_to points none = 0
distance_to points (some t) = start_of t - points

-- A number of points stands in exactly one tier: its start is reached and that of the next is not;
-- and the rest of the answer names the next tier and how far it is.
pub determine_loyalty_tier_iff :
    (points : ℕ) (t : TierName)
    → (((determine_loyalty_tier points).current_tier ≡ t)
        ↔ ((start_of t ≤ points) × IsBelow points (above t)))
      × ((determine_loyalty_tier points).next_tier
          ≡ above (determine_loyalty_tier points).current_tier)
      × ((determine_loyalty_tier points).points_to_next_tier
          ≡ distance_to points (determine_loyalty_tier points).next_tier)
unfolding determine_loyalty_tier
determine_loyalty_tier_iff points bronze = ground arith
determine_loyalty_tier_iff points silver = ground arith
determine_loyalty_tier_iff points gold = ground arith
determine_loyalty_tier_iff points platinum = ground arith
