-- ===== src/Loyalty/Redeem.antt =====
-- `calculateLoyaltyRedemption` of server/services/loyaltyService.js, with its rules as a record
-- instead of the environment. Amounts, the value of a point and the share are decimals in units of
-- 10^-8, and none of them is negative.
use lavish_fashion.Prelude.{
  ℕ, ◌+◌, ◌*◌, ◌/◌, ◌-◌, ◌≤◌, ◌<◌, ◌≡◌, ◌⊎◌, inl, inr, ◌&&◌, ◌||◌, Option, none, some, Result, ok,
  err, min, max, ltb, ◌==◌, if◌then◌else◌, arith,
}
use native.Mathlib.Nat.{mul-le-mul, le-max_left, div-mul-le_self}
use lavish_fashion.Money.{unit, paisa, round_to_paise}
use lavish_fashion.Loyalty.{User}

unfoldable pub get_user_available_loyalty_points : User → ℕ
get_user_available_loyalty_points u = u.loyalty_points - u.reserved_loyalty_points

pub record Rules : Type 0 where
  pub point_value : ℕ
  pub min_redeem_points : ℕ
  pub max_redeem_share : ℕ
  pub max_redeem_points_per_order : ℕ

pub data RedeemError : Type 0 where
  not_enough_points not_eligible above_maximum below_minimum : RedeemError

pub record Redemption : Type 0 where
  pub points_redeemed : ℕ
  pub discount_amount : ℕ
  pub available_points : ℕ
  pub max_redeemable_points : ℕ

-- `x || y` on numbers.
abbrev or_else : ℕ → ℕ → ℕ
or_else x y = if x == 0 then y else x

-- `min` with a bound that may be infinite: `none`, or 0 where the code writes `|| Infinity`.
abbrev capped : Option ℕ → ℕ → ℕ
capped none n = n
capped (some c) n = min c n

abbrev unlimited_if_zero : ℕ → Option ℕ
unlimited_if_zero c = if c == 0 then none else some c

-- `roundCurrency` of the product of an amount and a share.
pub share_of : ℕ → ℕ → ℕ
unfolding round_to_paise
share_of amount share = round_to_paise (amount * share / unit) * paisa

pub max_discount : Rules → ℕ → ℕ
unfolding share_of
max_discount rules base = min base (share_of base (or_else rules.max_redeem_share unit))

pub max_redeemable : Rules → ℕ → Option ℕ → ℕ → ℕ
unfolding max_discount
max_redeemable rules available cap base = min available (
    capped (unlimited_if_zero rules.max_redeem_points_per_order)
      (capped cap (max_discount rules base / max rules.point_value paisa)))

-- The tests on the maximum, and the redemption.
redeem_within : Rules → ℕ → ℕ → ℕ → Result RedeemError Redemption
unfolding round_to_paise
redeem_within rules requested available maximum =
    if maximum == 0
    then err not_eligible
    else if ltb 0 rules.min_redeem_points && ltb maximum rules.min_redeem_points
    then err below_minimum
    else if ltb 0 rules.min_redeem_points && ltb requested rules.min_redeem_points
    then err below_minimum
    else if ltb maximum requested
    then err above_maximum
    else ok (record {
      points_redeemed = requested;
      discount_amount = round_to_paise (requested * rules.point_value) * paisa;
      available_points = available;
      max_redeemable_points = maximum;
    })

unfoldable pub calculate_loyalty_redemption :
    Rules → User → ℕ → ℕ → Option ℕ → Result RedeemError Redemption
unfolding get_user_available_loyalty_points redeem_within max_redeemable
calculate_loyalty_redemption rules user requested base cap =
    let available = get_user_available_loyalty_points user in
    if requested == 0 || base == 0
    then ok (record {
      points_redeemed = 0;
      discount_amount = 0;
      available_points = available;
      max_redeemable_points = 0;
    })
    else if available == 0
    then err not_enough_points
    else redeem_within rules requested available (max_redeemable rules available cap base)

le_div-mul : (a b v w : ℕ) → a ≤ b / max v w → a * v ≤ b
le_div-mul a b v w h = omega (arith, mul-le-mul h (le-max_left v w), div-mul-le_self b (max v w))

redeem_within_bounds :
    (rules : Rules) (requested available m : ℕ) (r : Redemption)
    → redeem_within rules requested available m ≡ ok r
    → (r.points_redeemed ≡ requested) × (requested ≤ m) × (rules.min_redeem_points ≤ requested)
unfolding redeem_within
redeem_within_bounds rules requested available m r h = ground arith

max_redeemable_bounds :
    (rules : Rules) (available base : ℕ) (cap : Option ℕ)
    → (max_redeemable rules available cap base ≤ available)
      × ((c : ℕ) → cap ≡ some c → max_redeemable rules available cap base ≤ c)
      × (max_redeemable rules available cap base
          ≤ max_discount rules base / max rules.point_value paisa)
unfolding max_redeemable
max_redeemable_bounds rules available base none = ground arith
max_redeemable_bounds rules available base (some c) = ground arith

max_discount_le : (rules : Rules) (base : ℕ) → max_discount rules base ≤ base
unfolding max_discount
max_discount_le rules base = omega arith

-- A redemption of some points came from `redeem_within`.
redeem_within-of :
    (rules : Rules) (u : User) (requested base : ℕ) (cap : Option ℕ) (r : Redemption)
    → calculate_loyalty_redemption rules u requested base cap ≡ ok r
    → 0 < r.points_redeemed
    → (0 < requested)
      × (redeem_within rules requested
            (get_user_available_loyalty_points u)
            (max_redeemable rules (get_user_available_loyalty_points u) cap base)
          ≡ ok r)
unfolding calculate_loyalty_redemption
redeem_within-of rules u requested base cap r h some_points = ground arith

-- A redemption that goes through for some points redeems exactly the requested ones, no more than
-- the user has available or the cap of the caller, no fewer than the minimum, and points that are
-- worth no more than the order.
pub redemption_bounds :
    (rules : Rules) (u : User) (requested base : ℕ) (cap : Option ℕ) (r : Redemption)
    → calculate_loyalty_redemption rules u requested base cap ≡ ok r
    → 0 < r.points_redeemed
    → (r.points_redeemed ≡ requested)
      × (u.reserved_loyalty_points + requested ≤ u.loyalty_points)
      × (rules.min_redeem_points ≤ requested)
      × (requested * rules.point_value ≤ base)
      × ((c : ℕ) → cap ≡ some c → requested ≤ c)
unfolding get_user_available_loyalty_points
redemption_bounds rules u requested base cap r h some_points =
    let available = get_user_available_loyalty_points u in
    let m = max_redeemable rules available cap base in
    let (asked, within) = redeem_within-of rules u requested base cap r h some_points in
    let (same, small, enough) = redeem_within_bounds rules requested available m r within in
    let (by_user, by_cap, by_value) = max_redeemable_bounds rules available base cap in
    let value =
      le_div-mul requested (max_discount rules base) rules.point_value paisa
        (omega (arith, small, by_value)) in
    (
      same,
      omega (arith, small, by_user, asked),
      enough,
      omega (arith, value, max_discount_le rules base),
      λ c e. omega (arith, small, by_cap c e),
    )

redeem_within-discount :
    (rules : Rules) (requested available m : ℕ) (r : Redemption)
    → redeem_within rules requested available m ≡ ok r
    → r.discount_amount ≡ round_to_paise (requested * rules.point_value) * paisa
unfolding redeem_within
redeem_within-discount rules requested available m r h = ground arith

some_points_of :
    (rules : Rules) (u : User) (requested base : ℕ) (cap : Option ℕ) (r : Redemption)
    → calculate_loyalty_redemption rules u requested base cap ≡ ok r
    → (r.discount_amount ≡ 0) ⊎ (0 < r.points_redeemed)
unfolding calculate_loyalty_redemption redeem_within
some_points_of rules u requested base cap r h = ground arith

-- The discount is nothing, or the worth of the points in whole paise, and no more than the order.
pub redemption_discount :
    (rules : Rules) (u : User) (requested base : ℕ) (cap : Option ℕ) (r : Redemption)
    → calculate_loyalty_redemption rules u requested base cap ≡ ok r
    → (r.discount_amount ≡ 0)
      ⊎ ((r.discount_amount ≡ round_to_paise (requested * rules.point_value) * paisa)
          × (requested * rules.point_value ≤ base))
redemption_discount rules u requested base cap r h =
    elim (some_points_of rules u requested base cap r h) [
      | inl nothing ↦ inl nothing
      | inr some_points ↦
          let (asked, within) = redeem_within-of rules u requested base cap r h some_points in
          inr (
            redeem_within-discount rules requested (get_user_available_loyalty_points u)
                (max_redeemable rules (get_user_available_loyalty_points u) cap base) r within,
            (redemption_bounds rules u requested base cap r h some_points).3,
          )
    ]
