-- ===== src/Checkout/Parts.antt =====
-- Whole paise, and that each part of a price is whole paise and within its bound.
use lavish_fashion.Prelude.{
  ℕ, [], ◌∷◌, ◌+◌, ◌*◌, ◌-◌, ◌≤◌, ◌≡◌, inl, inr, refl, ◌∙◌, Bool, true, false, ◌||◌, Option, none,
  some, List, find_by, Result, ok, err, and_then-ok, ok-injective, subst, Option-cases, ◌==◌,
  if◌then◌else◌, map, arith,
}
use lavish_fashion.Money.{paisa, round_to_paise}
use lavish_fashion.Loyalty.{User, user_key}
use lavish_fashion.Loyalty.Redeem.{
  Rules, Redemption, RedeemError, get_user_available_loyalty_points, calculate_loyalty_redemption,
  redemption_discount,
}
use lavish_fashion.Checkout.Items.{
  CheckoutError, RawItem, Listed, Basket, NormalItem, normalize_items, backfill_listed,
  round_currency, sum_of, build_normalized_order_items,
}
use lavish_fashion.Checkout.Coupon.{
  Coupon, Usage, CouponEffect, check_coupon, coupon_discount, fee_with, DiscountType, percentage,
  flat, free_shipping, effect_of, apply_checked, resolve_coupon_for_checkout, coupon_key,
}
use lavish_fashion.Checkout.Total.{
  LoyaltyEffect, from_redemption, redeem_for, resolve_loyalty_redemption_for_checkout,
}

-- A whole number of paise.
abbrev pub WholePaise : ℕ → Type 0
WholePaise n = (p : ℕ) × (n ≡ p * paisa)

pub round_whole : (n : ℕ) → WholePaise n → round_currency n ≡ n
unfolding round_currency
round_whole n (p, e) = omega (arith, e)

round_le : (n m : ℕ) → WholePaise m → n ≤ m → round_currency n ≤ m
unfolding round_currency
round_le n m (p, e) h = omega (arith, e, h)

pub round-WholePaise : (n : ℕ) → WholePaise (round_currency n)
unfolding round_currency
round-WholePaise n = (round_to_paise n, refl)

pub add-WholePaise : (a b : ℕ) → WholePaise a → WholePaise b → WholePaise (a + b)
add-WholePaise a b (p, e) (q, f) = (p + q, omega (arith, e, f))

pub sub-WholePaise : (a b : ℕ) → WholePaise a → WholePaise b → WholePaise (a - b)
sub-WholePaise a b (p, e) (q, f) = (p - q, omega (arith, e, f))

pub basket-WholePaise :
    (check : Bool) (catalog : List Listed) (raws : List RawItem) (b : Basket)
    → build_normalized_order_items check catalog raws ≡ ok b
    → WholePaise b.subtotal
unfolding build_normalized_order_items
basket-WholePaise check catalog [] b h = cc
basket-WholePaise check catalog (raw ∷ raws) b h =
    let basket : List NormalItem → Basket =
      λ is. record { items = is; subtotal = round_currency (sum_of is) } in
    let (is, listed, e) =
      and_then-ok (normalize_items check (map backfill_listed catalog) (raw ∷ raws))
        (λ is. ok (basket is)) b h in
    subst (λ x. WholePaise x.subtotal) (ok-injective {a = basket is} e)
      (round-WholePaise (sum_of is))

-- What is known of a coupon's effect on an order.
abbrev pub IsFair : ℕ → CouponEffect → Type 0
IsFair subtotal c = WholePaise c.discount × (c.discount ≤ subtotal) × WholePaise c.delivery_fee

fee_with-WholePaise : (t : DiscountType) (fee : ℕ) → WholePaise fee → WholePaise (fee_with t fee)
fee_with-WholePaise percentage fee f = f
fee_with-WholePaise flat fee f = f
fee_with-WholePaise free_shipping fee f = (0, omega arith)

effect_of-Fair :
    (subtotal fee : ℕ) (c : Coupon)
    → WholePaise subtotal
    → WholePaise fee
    → IsFair subtotal (effect_of subtotal fee c)
unfolding coupon_discount
effect_of-Fair subtotal fee c s f = (
  round-WholePaise _,
  round_le _ subtotal s (omega arith),
  fee_with-WholePaise c.discount_type fee f,
)

apply_checked-Fair :
    (subtotal fee : ℕ) (r : Result CheckoutError Coupon) (c : CouponEffect)
    → WholePaise subtotal
    → WholePaise fee
    → apply_checked subtotal fee r ≡ ok c
    → IsFair subtotal c
unfolding apply_checked
apply_checked-Fair subtotal fee (err e) c s f h = cc
apply_checked-Fair subtotal fee (ok k) c s f h =
    subst (IsFair subtotal) (ok-injective h) (effect_of-Fair subtotal fee k s f)

-- A coupon takes off whole paise, and no more than the subtotal.
pub resolve_coupon-Fair :
    (coupons : List Coupon) (orders : List Usage) (now : ℕ) (user code : Option ℕ)
    (subtotal fee : ℕ) (c : CouponEffect)
    → WholePaise subtotal
    → WholePaise fee
    → resolve_coupon_for_checkout coupons orders now user code subtotal fee ≡ ok c
    → IsFair subtotal c
unfolding resolve_coupon_for_checkout
resolve_coupon-Fair coupons orders now user none subtotal fee c s f h =
    subst (IsFair subtotal) (ok-injective h) ((0, omega arith), omega arith, f)
resolve_coupon-Fair coupons orders now user (some code) subtotal fee c s f h =
    elim (Option-cases (find_by coupon_key code coupons)) [
      | inl missing ↦ ground (arith, missing, h)
      | inr (k, there) ↦
          apply_checked-Fair subtotal fee (check_coupon now user subtotal orders k) c s f
            (rw (there, resolve_coupon_for_checkout) at h)
    ]

-- What is known of the points' effect.
abbrev pub IsWithin : ℕ → LoyaltyEffect → Type 0
IsWithin base l = WholePaise l.discount × (l.discount ≤ base)

redemption-Within :
    (rules : Rules) (u : User) (requested base : ℕ) (cap : Option ℕ) (r : Redemption)
    → WholePaise base
    → calculate_loyalty_redemption rules u requested base cap ≡ ok r
    → WholePaise r.discount_amount × (r.discount_amount ≤ base)
unfolding round_currency
redemption-Within rules u requested base cap r w h =
    elim (redemption_discount rules u requested base cap r h) [
      | inl nothing ↦ ((0, nothing ∙ omega arith), omega (arith, nothing))
      | inr (worth, small) ↦ (
        (round_to_paise (requested * rules.point_value), worth),
        rw worth (round_le (requested * rules.point_value) base w small),
      )
    ]

from_redemption-Within :
    (available base : ℕ) (r : Result RedeemError Redemption) (l : LoyaltyEffect)
    → ((x : Redemption) → r ≡ ok x → WholePaise x.discount_amount × (x.discount_amount ≤ base))
    → from_redemption available r ≡ ok l
    → IsWithin base l
unfolding from_redemption
from_redemption-Within available base (err e) l within h = cc
from_redemption-Within available base (ok x) l within h =
    subst (IsWithin base) (ok-injective h) (within x refl)

if-Within :
    (b : Bool) (x y : Result CheckoutError LoyaltyEffect) (base : ℕ) (l : LoyaltyEffect)
    → (x ≡ ok l → IsWithin base l)
    → (y ≡ ok l → IsWithin base l)
    → (if b then x else y) ≡ ok l
    → IsWithin base l
if-Within true x y base l f g h = f h
if-Within false x y base l f g h = g h

redeem_for-Within :
    (rules : Rules) (per_product : ℕ) (users : List User) (u : User) (points base units : ℕ)
    (l : LoyaltyEffect)
    → WholePaise base
    → redeem_for rules per_product users u points base units ≡ ok l
    → IsWithin base l
unfolding redeem_for
redeem_for-Within rules per_product users u points base units l w h =
    let available = get_user_available_loyalty_points u in
    let redeemed = calculate_loyalty_redemption rules u points base (some (units * per_product)) in
    if-Within (points == 0 || base == 0)
      (ok (record { available_points = available; points_redeemed = 0; discount = 0 }))
      (from_redemption available redeemed) base l
      (λ e. subst (IsWithin base) (ok-injective e) ((0, omega arith), omega arith))
      (from_redemption-Within available base redeemed l
        (λ x e. redemption-Within rules u points base (some (units * per_product)) x w e))
      h

pub resolve_loyalty-Within :
    (rules : Rules) (per_product : ℕ) (users : List User) (user : Option ℕ) (points base units : ℕ)
    (l : LoyaltyEffect)
    → WholePaise base
    → resolve_loyalty_redemption_for_checkout rules per_product users user points base units ≡ ok l
    → IsWithin base l
unfolding resolve_loyalty_redemption_for_checkout
resolve_loyalty-Within rules per_product users none points base units l w h =
    subst (IsWithin base) (ok-injective h) ((0, omega arith), omega arith)
resolve_loyalty-Within rules per_product users (some k) points base units l w h =
    elim (Option-cases (find_by user_key k users)) [
      | inl missing ↦ ground (arith, missing, h)
      | inr (u, there) ↦
          redeem_for-Within rules per_product users u points base units l w
            (rw (there, resolve_loyalty_redemption_for_checkout) at h)
    ]
