-- ===== src/Checkout/Sum.antt =====
-- What the customer pays and what is taken off add up.
use lavish_fashion.Prelude.{ℕ, ◌+◌, ◌-◌, ◌≤◌, ◌≡◌, ok, and_then-ok, ok-injective, subst, arith}
use lavish_fashion.Checkout.Items.{Basket, build_normalized_order_items}
use lavish_fashion.Checkout.Coupon.{CouponEffect, resolve_coupon_for_checkout}
use lavish_fashion.Checkout.Total.{
  Pricing, Shop, CheckoutRequest, LoyaltyEffect, resolve_loyalty_redemption_for_checkout, price,
  redeemable_base, total_units, price_basket, price_with, calculate_checkout_pricing,
}
use lavish_fashion.Checkout.Parts.{
  WholePaise, WholePaise, round_whole, round-WholePaise, add-WholePaise, sub-WholePaise,
  basket-WholePaise, IsFair, resolve_coupon-Fair, IsWithin, resolve_loyalty-Within,
}

base-WholePaise : (b : Basket) (c : CouponEffect) → WholePaise (redeemable_base b c)
unfolding redeemable_base
base-WholePaise b c = round-WholePaise (b.subtotal + c.delivery_fee - c.discount)

add_up :
    (b : Basket) (c : CouponEffect) (l : LoyaltyEffect)
    → WholePaise b.subtotal
    → IsFair b.subtotal c
    → IsWithin (redeemable_base b c) l
    → (c.discount + l.discount ≤ b.subtotal + c.delivery_fee)
      × ((price b c l).discount_amount ≡ c.discount + l.discount)
      × ((price b c l).amount + (price b c l).discount_amount ≡ b.subtotal + c.delivery_fee)
unfolding price redeemable_base
add_up b c l s (d, small, f) (e, within) =
    let sum = add-WholePaise b.subtotal c.delivery_fee s f in
    let base =
      round_whole (b.subtotal + c.delivery_fee - c.discount)
        (sub-WholePaise (b.subtotal + c.delivery_fee) c.discount sum d) in
    let off = round_whole (c.discount + l.discount) (add-WholePaise c.discount l.discount d e) in
    let fits : c.discount + l.discount ≤ b.subtotal + c.delivery_fee =
      omega (arith, within, base, small) in
    let paid = round_whole (b.subtotal + c.delivery_fee - (c.discount + l.discount)) (
      sub-WholePaise (b.subtotal + c.delivery_fee) (c.discount + l.discount) sum
        (add-WholePaise c.discount l.discount d e)) in
    (fits, off, rw off (rw paid (omega (arith, fits))))

-- The parts of a price add up.
abbrev pub AddsUp : Pricing → Type 0
AddsUp p =
    (p.amount + p.coupon_discount_amount + p.loyalty_discount_amount ≡ p.subtotal + p.delivery_fee)
    × (p.discount_amount ≡ p.coupon_discount_amount + p.loyalty_discount_amount)
    × (p.coupon_discount_amount ≤ p.subtotal)

to_AddsUp :
    (b : Basket) (c : CouponEffect) (l : LoyaltyEffect)
    → (price b c l).discount_amount ≡ c.discount + l.discount
    → (price b c l).amount + (price b c l).discount_amount ≡ b.subtotal + c.delivery_fee
    → c.discount ≤ b.subtotal
    → AddsUp (price b c l)
unfolding price
to_AddsUp b c l off sum small = (omega (arith, off, sum), off, small)

-- With a delivery charge in whole paise, a price that is given adds up to the paisa: what is paid,
-- what the coupon takes off and what the points take off are together the subtotal and the delivery
-- fee, so no discount is cut off at zero; and the coupon takes off no more than the subtotal.
pub pricing-AddsUp :
    (shop : Shop) (now : ℕ) (q : CheckoutRequest) (p : Pricing)
    → WholePaise q.delivery_charge
    → calculate_checkout_pricing shop now q ≡ ok p
    → AddsUp p
unfolding calculate_checkout_pricing price_basket price_with
pricing-AddsUp shop now q p f h =
    let (b, basket, h') =
      and_then-ok (build_normalized_order_items q.check_inventory shop.catalog q.items)
        (price_basket shop now q) p h in
    let (c, coupon, h'') =
      and_then-ok
        (resolve_coupon_for_checkout shop.coupons shop.orders now q.user_id q.coupon_code b.subtotal
          q.delivery_charge)
        (price_with shop q b) p h' in
    let (l, points, done) =
      and_then-ok
        (resolve_loyalty_redemption_for_checkout shop.rules shop.per_product shop.users q.user_id
          q.points_to_redeem (redeemable_base b c) (total_units b.items))
        (λ l. ok (price b c l)) p h'' in
    let fair =
      resolve_coupon-Fair shop.coupons shop.orders now q.user_id q.coupon_code b.subtotal
        q.delivery_charge c (basket-WholePaise q.check_inventory shop.catalog q.items b basket) f
        coupon in
    let within =
      resolve_loyalty-Within shop.rules shop.per_product shop.users q.user_id q.points_to_redeem
        (redeemable_base b c) (total_units b.items) l (base-WholePaise b c) points in
    let (fits, off, sum) =
      add_up b c l (basket-WholePaise q.check_inventory shop.catalog q.items b basket) fair
        within in
    subst AddsUp (ok-injective {a = price b c l} done) (to_AddsUp b c l off sum fair.1)
