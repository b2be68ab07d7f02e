-- ===== src/Checkout/Tests.antt =====
-- Instances of the theorems on checkout prices.
use lavish_fashion.Prelude.{ℕ, ◌≡◌, refl, true, false, none, some, [], ◌∷◌, ok}
use lavish_fashion.Inventory.{active}
use lavish_fashion.Loyalty.{User}
use lavish_fashion.Checkout.Items.{Listed}
use lavish_fashion.Checkout.Coupon.{Coupon, percentage}
use lavish_fashion.Checkout.Total.{Pricing, Shop, CheckoutRequest, calculate_checkout_pricing}
use lavish_fashion.Checkout.Sum.{AddsUp, pricing-AddsUp}

-- Ten rupees.
abbrev ten : ℕ
ten = 1_000_000_000

abbrev dress : Listed
dress = record {
  product = record {
    id = 1;
    sku = none;
    stock = some 5;
    low_stock_threshold = none;
    status = some active;
    is_featured = none;
  };
  price = 99_950_000_000;
}

-- Ten percent.
abbrev welcome : Coupon
welcome = record {
  code = 10;
  id = 3;
  is_active = true;
  starts_at = none;
  ends_at = some 900;
  min_order_amount = ten;
  usage_limit = some 2;
  per_user_limit = some 1;
  discount_type = percentage;
  discount_value = ten;
  max_discount_amount = none;
}

abbrev bea : User
bea = record {
  id = 4;
  loyalty_points = 300;
  reserved_loyalty_points = 0;
  lifetime_loyalty_points = 300;
  referred_by = none;
  referral_reward_unlocked = false;
  successful_referral_count = 0;
}

abbrev shop : Shop
shop = record {
  catalog = dress ∷ [];
  coupons = welcome ∷ [];
  orders = record { coupon_id = some 3; user_id = some 9; is_failed_or_cancelled = false } ∷ [];
  users = bea ∷ [];
  rules = record {
    point_value = 100_000_000;
    min_redeem_points = 50;
    max_redeem_share = 50_000_000;
    max_redeem_points_per_order = 500;
  };
  per_product = 30;
}

abbrev wish : CheckoutRequest
wish = record {
  user_id = some 4;
  items = record { id = some 1; quantity = some 2 } ∷ [];
  coupon_code = some 10;
  points_to_redeem = 60;
  delivery_charge = ten;
  check_inventory = true;
}

abbrev priced : Pricing
priced = record {
  items = record { id = 1; price = 99_950_000_000; quantity = 2 } ∷ [];
  subtotal = 199_900_000_000;
  delivery_fee = ten;
  coupon_discount_amount = 19_990_000_000;
  loyalty_discount_amount = 6_000_000_000;
  discount_amount = 25_990_000_000;
  amount = 174_910_000_000;
  loyalty_points_redeemed = 60;
  available_loyalty_points = 300;
  applied_coupon = some welcome;
}

is_priced : calculate_checkout_pricing shop 500 wish ≡ ok priced
unfolding calculate_checkout_pricing
is_priced = refl

pricing-AddsUp_example : AddsUp priced
pricing-AddsUp_example = pricing-AddsUp shop 500 wish priced (1_000, refl) is_priced
