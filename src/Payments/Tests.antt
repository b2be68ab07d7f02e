-- ===== src/Payments/Tests.antt =====
-- Instances of the theorems on payments.
use lavish_fashion.Prelude.{
  ℕ, suc, ◌≡◌, refl, Bool, true, false, Option, none, some, List, [], ◌∷◌, ◌++◌, length, ok, err,
  arith,
}
use lavish_fashion.Inventory.{
  OrderItem, Product, active, insufficient_stock, reserve_inventory_for_items,
  backfill_missing_product_inventory,
}
use lavish_fashion.Inventory.Shelf.{shelf, raise, demand}
use lavish_fashion.Loyalty.{User}
use lavish_fashion.Loyalty.Points.{find_user, unhold}
use lavish_fashion.Orders.{reserved}
use lavish_fashion.Orders.Samples.{a_purchase}
use lavish_fashion.Orders.World.{World}
use lavish_fashion.Payments.{Attempt, attempt_failed, attempt_pending, Shop, find_attempt}
use lavish_fashion.Payments.Attempts.{
  mark_payment_attempt_as_not_completed, resources_not_reserved, create_order,
  create_order_from_payment_attempt, is_order_created,
}
use lavish_fashion.Payments.Checkout.{
  Basket, CheckoutFaults, create_failed, gateway_failed, no_stock, cod_order, place_order_cod,
  reserve_points,
}
use lavish_fashion.Payments.Online.{place_order_razorpay}
use lavish_fashion.Payments.Intake.{
  Arrival, Desk, payment_captured, duplicate, handle_razorpay_webhook,
}
use lavish_fashion.Payments.Goods.{goods, held_by_orders}
use lavish_fashion.Payments.Attempted.{falls_through, is_paid, happen, happen-goods}
use lavish_fashion.Payments.Late.{paid_too_late}
use lavish_fashion.Payments.Events.{webhook_once}
use lavish_fashion.Payments.AtOnce.{paid_at_once}
use lavish_fashion.Payments.Twice.{cod-shelf, online_failed-shelf}
use lavish_fashion.Payments.Short.{online_short-points}

abbrev two_kurtas : OrderItem
two_kurtas = record { id = 6; name = "Kurta"; quantity = 2 }

abbrev kurta : Product
kurta = record {
  id = 6;
  sku = none;
  stock = some 9;
  low_stock_threshold = none;
  status = some active;
  is_featured = none;
}

abbrev customer : User
customer = record {
  id = 4;
  loyalty_points = 400;
  reserved_loyalty_points = 150;
  lifetime_loyalty_points = 400;
  referred_by = none;
  referral_reward_unlocked = false;
  successful_referral_count = 0;
}

abbrev street : World
street = record {
  loyalty = record { users = customer ∷ []; orders = a_purchase ∷ []; transactions = [] };
  products = kurta ∷ [];
  sent = [];
}

abbrev attempt : Attempt
attempt = record {
  id = 3;
  user_id = some 4;
  items = two_kurtas ∷ [];
  amount = 25_000_000_000;
  buy_now = false;
  status = attempt_pending;
  inventory_reserved = true;
  points_redeemed = 100;
  redemption_status = reserved;
  razorpay_order_id = some 77;
  razorpay_payment_id = none;
  gateway_event_id = none;
  created_order_id = none;
  date = 10;
  expires_at = 90;
}

abbrev shop : Shop
shop = record { world = street; attempts = attempt ∷ [] }

abbrev basket : ℕ → ℕ → Basket
basket quantity points = record {
  user_id = some 4;
  items = record { id = 6; name = "Kurta"; quantity = quantity } ∷ [];
  amount = 25_000_000_000;
  points_redeemed = points;
  buy_now = false;
}

abbrev faults : Bool → CheckoutFaults
faults fails = record {
  stock_down = λ i. false;
  create_fails = fails;
  later_fails = false;
  gateway = none;
}

happen-goods_example :
    goods 6 (happen (falls_through attempt_failed none none 3 ∷ is_paid 20 8 none none 3 ∷ []) shop)
    ≡ goods 6 shop
happen-goods_example =
    happen-goods 6 (falls_through attempt_failed none none 3 ∷ is_paid 20 8 none none 3 ∷ []) shop

paid_too_late_example :
    let s' = mark_payment_attempt_as_not_completed attempt_failed none none 3 shop in
    create_order_from_payment_attempt 20 8 (some 55) none 3 s' ≡ (err resources_not_reserved, s')
unfolding is_order_created
paid_too_late_example =
    paid_too_late attempt_failed none none attempt shop 20 8 (some 55) none refl refl refl

abbrev captured : Arrival
captured = record {
  signed = true;
  configured = true;
  signature_valid = true;
  payload_valid = true;
  event_id = 501;
  event_type = payment_captured;
  entity = record { id = some 55; order_id = some 77 };
}

abbrev desk : Desk
desk = record { shop = shop; events = [] }

webhook_once_example :
    let d' = (handle_razorpay_webhook false 20 8 captured desk).1 in
    ((down : Bool) (later other : ℕ) (b : Arrival)
      → b.event_id ≡ 501
      → (handle_razorpay_webhook down later other b d').1 ≡ d')
    × ((later other : ℕ) → handle_razorpay_webhook false later other captured d' ≡ (duplicate, d'))
webhook_once_example = webhook_once 20 8 captured desk refl

paid_at_once_example :
    let first = (create_order_from_payment_attempt 20 8 (some 55) none 3 shop).1 in
    length (create_order 20 9 (some 55) none attempt first).world.loyalty.orders ≡ suc (suc 1)
paid_at_once_example =
    paid_at_once 20 8 20 9 (some 55) (some 55) none none attempt shop refl refl refl

abbrev shelves : List Product
shelves = (reserve_inventory_for_items (λ i. false) (two_kurtas ∷ []) (kurta ∷ [])).1

no_points_asked : reserve_points (basket 2 0) street ≡ (ok tt, street)
unfolding reserve_points
no_points_asked = refl

shelves_taken :
    reserve_inventory_for_items (λ i. false) (two_kurtas ∷ []) (kurta ∷ []) ≡ (ok tt, shelves)
unfolding reserve_inventory_for_items
shelves_taken = refl

-- Seven are left of nine.
two_taken : shelf 6 shelves ≡ some 7
unfolding reserve_inventory_for_items
two_taken = refl

abbrev before : Option ℕ
before = shelf 6 (backfill_missing_product_inventory (kurta ∷ []))

cod-shelf_example :
    (false ≡ false
      → false ≡ false
      → let r = place_order_cod (faults false) 20 8 (basket 2 0) street in
        (r.0 ≡ ok 8)
        × (r.1.loyalty.orders ≡ street.loyalty.orders ++ cod_order 20 8 (basket 2 0) ∷ [])
        × (raise (held_by_orders 6 r.1) (shelf 6 r.1.products)
            ≡ raise (held_by_orders 6 street) before))
    × (false ≡ true
        → let r = place_order_cod (faults false) 20 8 (basket 2 0) street in
          (r.0 ≡ err create_failed) × (shelf 6 r.1.products ≡ before))
cod-shelf_example =
    cod-shelf (faults false) 20 8 two_kurtas [] (basket 2 0) street street shelves refl
      no_points_asked shelves_taken 6

online_failed-shelf_example :
    let r = place_order_razorpay (faults true) 20 8 (basket 2 0) shop in
    let too_much = raise (demand 6 (two_kurtas ∷ [])) before in
    (true ≡ true → (r.0 ≡ err create_failed) × (shelf 6 r.1.world.products ≡ too_much))
    × (true ≡ false
        → (faults true).gateway ≡ none
        → find_attempt 8 shop ≡ none
        → (r.0 ≡ err gateway_failed) × (shelf 6 r.1.world.products ≡ too_much))
online_failed-shelf_example =
    online_failed-shelf (faults true) 20 8 two_kurtas [] (basket 2 0) street street shelves refl
      no_points_asked shelves_taken 6 shop refl refl

sold_out :
    (reserve_inventory_for_items (λ i. false) (basket 50 100).items (kurta ∷ [])).0
    ≡ err (insufficient_stock "Kurta")
unfolding reserve_inventory_for_items
sold_out = refl

online_short-points_example :
    let r = place_order_razorpay (faults false) 20 8 (basket 50 100) shop in
    (r.0 ≡ err (no_stock (insufficient_stock "Kurta")))
    × (find_user 4 r.1.world.loyalty ≡ some (unhold 100 customer))
online_short-points_example =
    online_short-points (faults false) 20 8 4 (basket 50 100) customer shop
      (insufficient_stock "Kurta") refl refl (omega arith) (omega arith) sold_out (omega arith) refl
