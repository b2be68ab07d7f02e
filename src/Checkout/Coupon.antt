-- ===== src/Checkout/Coupon.antt =====
-- `resolveCouponForCheckout` of server/services/checkoutPricingService.js, on the coupons of
-- server/models/couponModel.js and the orders that used them.
use lavish_fashion.Prelude.{
  ℕ, ◌*◌, ◌/◌, ◌≤◌, ◌≡◌, ◌↔◌, Bool, true, false, not, ◌&&◌, Option, none, some, List, find_by,
  length, keep_if, Result, ok, err, min, ltb, leb, ◌==◌, if◌then◌else◌, arith,
}
use lavish_fashion.Money.{unit}
use lavish_fashion.Checkout.Items.{
  CheckoutError, coupon_invalid, coupon_not_yet, coupon_expired, coupon_minimum, coupon_used_up,
  coupon_used_by_user, round_currency,
}

pub data DiscountType : Type 0 where
  percentage flat free_shipping : DiscountType

pub record Coupon : Type 0 where
  pub code : ℕ
  pub id : ℕ
  pub is_active : Bool
  pub starts_at : Option ℕ
  pub ends_at : Option ℕ
  pub min_order_amount : ℕ
  pub usage_limit : Option ℕ
  pub per_user_limit : Option ℕ
  pub discount_type : DiscountType
  pub discount_value : ℕ
  pub max_discount_amount : Option ℕ

abbrev pub coupon_key : Coupon → ℕ
coupon_key c = c.code

-- What an order says of the coupon it used.
pub record Usage : Type 0 where
  pub coupon_id : Option ℕ
  pub user_id : Option ℕ
  pub is_failed_or_cancelled : Bool

is_same : ℕ → Option ℕ → Bool
is_same k none = false
is_same k (some j) = j == k

pub uses : ℕ → List Usage → ℕ
unfolding is_same
uses k orders = length (keep_if (λ o. is_same k o.coupon_id && not o.is_failed_or_cancelled) orders)

pub uses_by : ℕ → ℕ → List Usage → ℕ
unfolding is_same
uses_by k user orders = length (
    keep_if (λ o. is_same k o.coupon_id && not o.is_failed_or_cancelled && is_same user o.user_id)
      orders)

-- `if (limit) … count >= limit`: a limit of 0 counts as none.
abbrev pub limit_reached : Option ℕ → ℕ → Bool
limit_reached none count = false
limit_reached (some limit) count = ltb 0 limit && leb limit count

abbrev pub too_early : ℕ → Option ℕ → Bool
too_early now none = false
too_early now (some t) = ltb now t

abbrev pub too_late : ℕ → Option ℕ → Bool
too_late now none = false
too_late now (some t) = ltb t now

used_up_by : Option ℕ → Coupon → List Usage → Bool
unfolding uses_by
used_up_by none c orders = false
used_up_by (some user) c orders = limit_reached c.per_user_limit (uses_by c.id user orders)

-- The tests on a coupon that was found.
unfoldable pub check_coupon : ℕ → Option ℕ → ℕ → List Usage → Coupon → Result CheckoutError Coupon
unfolding uses used_up_by
check_coupon now user subtotal orders c =
    if not c.is_active
    then err coupon_invalid
    else if too_early now c.starts_at
    then err coupon_not_yet
    else if too_late now c.ends_at
    then err coupon_expired
    else if ltb subtotal c.min_order_amount
    then err coupon_minimum
    else if limit_reached c.usage_limit (uses c.id orders)
    then err coupon_used_up
    else if used_up_by user c orders
    then err coupon_used_by_user
    else ok c

-- The discount before any bound: a percentage is a decimal too.
raw_discount : DiscountType → ℕ → ℕ → ℕ
raw_discount percentage value subtotal = subtotal * value / (100 * unit)
raw_discount flat value subtotal = value
raw_discount free_shipping value subtotal = 0

abbrev bounded : Option ℕ → ℕ → ℕ
bounded none n = n
bounded (some m) n = min n m

unfoldable pub coupon_discount : Coupon → ℕ → ℕ
unfolding raw_discount round_currency
coupon_discount c subtotal = round_currency (
    min (bounded c.max_discount_amount (raw_discount c.discount_type c.discount_value subtotal))
      subtotal)

abbrev pub fee_with : DiscountType → ℕ → ℕ
fee_with free_shipping fee = 0
fee_with _ fee = fee

pub record CouponEffect : Type 0 where
  pub coupon : Option Coupon
  pub discount : ℕ
  pub delivery_fee : ℕ

abbrev pub effect_of : ℕ → ℕ → Coupon → CouponEffect
effect_of subtotal fee c = record {
  coupon = some c;
  discount = coupon_discount c subtotal;
  delivery_fee = fee_with c.discount_type fee;
}

unfoldable pub apply_checked :
    ℕ → ℕ → Result CheckoutError Coupon → Result CheckoutError CouponEffect
unfolding coupon_discount
apply_checked subtotal fee (err e) = err e
apply_checked subtotal fee (ok c) = ok (effect_of subtotal fee c)

-- `none` as the code is the empty one.
unfoldable pub resolve_coupon_for_checkout :
    List Coupon → List Usage → ℕ → Option ℕ → Option ℕ → ℕ → ℕ → Result CheckoutError CouponEffect
unfolding check_coupon apply_checked
resolve_coupon_for_checkout coupons orders now user none subtotal fee =
    ok (record { coupon = none; discount = 0; delivery_fee = fee })
resolve_coupon_for_checkout coupons orders now user (some code) subtotal fee =
    elim (find_by coupon_key code coupons) [
      | none ↦ err coupon_invalid
      | some c ↦ apply_checked subtotal fee (check_coupon now user subtotal orders c)
    ]

-- For a user who is logged in, a coupon that was found passes exactly when it is active, its time
-- has come and not gone, the order is large enough, and neither its limit nor the limit per user
-- is reached.
pub check_coupon_iff :
    (now user subtotal : ℕ) (orders : List Usage) (c : Coupon)
    → (check_coupon now (some user) subtotal orders c ≡ ok c) ↔ (
        (c.is_active ≡ true)
        × (too_early now c.starts_at ≡ false)
        × (too_late now c.ends_at ≡ false)
        × (c.min_order_amount ≤ subtotal)
        × (limit_reached c.usage_limit (uses c.id orders) ≡ false)
        × (limit_reached c.per_user_limit (uses_by c.id user orders) ≡ false))
unfolding check_coupon used_up_by
check_coupon_iff now user subtotal orders c = ground arith
