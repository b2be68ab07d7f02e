-- ===== src/Checkout/Total.antt =====
-- `resolveLoyaltyRedemptionForCheckout` and `calculateCheckoutPricing` of
-- server/services/checkoutPricingService.js.
use lavish_fashion.Prelude.{
  ℕ, [], ◌∷◌, ◌+◌, ◌*◌, ◌-◌, Bool, ◌||◌, Option, none, some, List, find_by, Result, ok, err,
  and_then, ◌==◌, if◌then◌else◌,
}
use lavish_fashion.Loyalty.{User, user_key}
use lavish_fashion.Loyalty.Redeem.{
  Rules, Redemption, RedeemError, get_user_available_loyalty_points, calculate_loyalty_redemption,
}
use lavish_fashion.Checkout.Items.{
  CheckoutError, user_not_found, redemption_refused, RawItem, Listed, NormalItem, Basket,
  round_currency, build_normalized_order_items,
}
use lavish_fashion.Checkout.Coupon.{Coupon, Usage, CouponEffect, resolve_coupon_for_checkout}

pub record LoyaltyEffect : Type 0 where
  pub available_points : ℕ
  pub points_redeemed : ℕ
  pub discount : ℕ

-- The `catch` turns any refusal into a checkout error.
unfoldable pub from_redemption :
    ℕ → Result RedeemError Redemption → Result CheckoutError LoyaltyEffect
from_redemption available (err e) = err redemption_refused
from_redemption available (ok r) = ok (record {
  available_points = available;
  points_redeemed = r.points_redeemed;
  discount = r.discount_amount;
})

-- `per_product` is the rule for the points that each unit allows.
module _ (rules : Rules) (per_product : ℕ) (users : List User) where
  unfoldable pub redeem_for : User → ℕ → ℕ → ℕ → Result CheckoutError LoyaltyEffect
  unfolding from_redemption calculate_loyalty_redemption get_user_available_loyalty_points
  redeem_for u points base units =
      let available = get_user_available_loyalty_points u in
      if points == 0 || base == 0
      then ok (record { available_points = available; points_redeemed = 0; discount = 0 })
      else from_redemption available
          (calculate_loyalty_redemption rules u points base (some (units * per_product)))

  unfoldable pub resolve_loyalty_redemption_for_checkout :
      Option ℕ → ℕ → ℕ → ℕ → Result CheckoutError LoyaltyEffect
  unfolding redeem_for
  resolve_loyalty_redemption_for_checkout none points base units =
      ok (record { available_points = 0; points_redeemed = 0; discount = 0 })
  resolve_loyalty_redemption_for_checkout (some k) points base units =
      elim (find_by user_key k users) [
        | none ↦ err user_not_found
        | some u ↦ redeem_for u points base units
      ]

pub total_units : List NormalItem → ℕ
total_units [] = 0
total_units (i ∷ is) = i.quantity + total_units is

pub record Pricing : Type 0 where
  pub items : List NormalItem
  pub subtotal : ℕ
  pub delivery_fee : ℕ
  pub coupon_discount_amount : ℕ
  pub loyalty_discount_amount : ℕ
  pub discount_amount : ℕ
  pub amount : ℕ
  pub loyalty_points_redeemed : ℕ
  pub available_loyalty_points : ℕ
  pub applied_coupon : Option Coupon

unfoldable pub price : Basket → CouponEffect → LoyaltyEffect → Pricing
unfolding round_currency
price b c l =
    let discount = round_currency (c.discount + l.discount) in
    record {
      items = b.items;
      subtotal = b.subtotal;
      delivery_fee = c.delivery_fee;
      coupon_discount_amount = c.discount;
      loyalty_discount_amount = l.discount;
      discount_amount = discount;
      amount = round_currency (b.subtotal + c.delivery_fee - discount);
      loyalty_points_redeemed = l.points_redeemed;
      available_loyalty_points = l.available_points;
      applied_coupon = c.coupon;
    }

unfoldable pub redeemable_base : Basket → CouponEffect → ℕ
unfolding round_currency
redeemable_base b c = round_currency (b.subtotal + c.delivery_fee - c.discount)

-- What is read of the shop, and the request.
pub record Shop : Type 0 where
  pub catalog : List Listed
  pub coupons : List Coupon
  pub orders : List Usage
  pub users : List User
  pub rules : Rules
  pub per_product : ℕ

pub record CheckoutRequest : Type 0 where
  pub user_id : Option ℕ
  pub items : List RawItem
  pub coupon_code : Option ℕ
  pub points_to_redeem : ℕ
  pub delivery_charge : ℕ
  pub check_inventory : Bool

-- Behind the coupon, and behind the items.
unfoldable pub price_with :
    Shop → CheckoutRequest → Basket → CouponEffect → Result CheckoutError Pricing
unfolding resolve_loyalty_redemption_for_checkout total_units price redeemable_base
price_with shop q b c =
    and_then
      (resolve_loyalty_redemption_for_checkout shop.rules shop.per_product shop.users q.user_id
        q.points_to_redeem (redeemable_base b c) (total_units b.items))
      λ l. ok (price b c l)

unfoldable pub price_basket : Shop → ℕ → CheckoutRequest → Basket → Result CheckoutError Pricing
unfolding resolve_coupon_for_checkout price_with
price_basket shop now q b =
    and_then
      (resolve_coupon_for_checkout shop.coupons shop.orders now q.user_id q.coupon_code b.subtotal
        q.delivery_charge)
      (price_with shop q b)

unfoldable pub calculate_checkout_pricing :
    Shop → ℕ → CheckoutRequest → Result CheckoutError Pricing
unfolding build_normalized_order_items price_basket
calculate_checkout_pricing shop now q =
    and_then (build_normalized_order_items q.check_inventory shop.catalog q.items)
      (price_basket shop now q)
