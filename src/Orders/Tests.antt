-- ===== src/Orders/Tests.antt =====
-- Instances of the theorems on the status of orders.
use lavish_fashion.Prelude.{ℕ, ◌≡◌, ◌≢◌, refl, Bool, true, false, none, some, [], ◌∷◌, ok, err}
use lavish_fashion.Inventory.{
  Product, active, reserve_inventory_for_items, backfill_missing_product_inventory, OrderItem,
}
use lavish_fashion.Inventory.Shelf.{shelf}
use lavish_fashion.Loyalty.{User}
use lavish_fashion.Loyalty.Points.{finalize_reserved_loyalty_redemption, award_loyalty_points}
use lavish_fashion.Loyalty.Rewards.{award_order_delivery_rewards}
use lavish_fashion.Loyalty.Points.Booked.{IsBooked}
use lavish_fashion.Orders.{Order, same_status, placed, shipped, delivered, cancelled}
use lavish_fashion.Orders.Samples.{a_purchase}
use lavish_fashion.Orders.World.{World}
use lavish_fashion.Orders.Cancel.{Setting, perform_order_cancellation}
use lavish_fashion.Orders.Status.{
  Additional, TransitionError, is_finalized_order_status, apply_order_status_transition,
}
use lavish_fashion.Orders.Requests.{done, refused, update_order_status}
use lavish_fashion.Orders.Effects.{status_at}
use lavish_fashion.Orders.Updates.{may_move, update-moves}
use lavish_fashion.Orders.Absorb.{by_admin, by_user, handle_all, final_stays}
use lavish_fashion.Orders.Once.{given_back, cancel_once, cancel-restores}
use lavish_fashion.Orders.Rewarded.{SameGoods, deliver_once}
use lavish_fashion.Orders.Books.Requests.{requests-Booked}

abbrev kurta : Product
kurta = record {
  id = 6;
  sku = none;
  stock = some 9;
  low_stock_threshold = none;
  status = some active;
  is_featured = none;
}

abbrev nobody_down : OrderItem → Bool
nobody_down i = false

abbrev held : Order
held = record a_purchase { inventory_reserved = true }

abbrev customer : User
customer = record {
  id = 4;
  loyalty_points = 40;
  reserved_loyalty_points = 0;
  lifetime_loyalty_points = 40;
  referred_by = some 8;
  referral_reward_unlocked = false;
  successful_referral_count = 0;
}

abbrev friend : User
friend = record customer { id = 8; referred_by = none }

abbrev setting : Setting
setting = record {
  configured = true;
  cancel_upstream = λ k. err 500;
  rewards = record {
    points_divisor = none;
    min_order_points = none;
    referrer_points = none;
    new_customer_points = none;
  };
}

abbrev shop : World
shop = record {
  loyalty = record { users = customer ∷ friend ∷ []; orders = held ∷ []; transactions = [] };
  products = (reserve_inventory_for_items nobody_down held.items (kurta ∷ [])).1;
  sent = [];
}

abbrev gone : World
gone = (perform_order_cancellation setting 20 held shop).1

gone_cancelled : status_at 1 gone ≡ some cancelled
unfolding perform_order_cancellation
gone_cancelled = refl

-- The rewards of the delivery: ten points for the order, and the referral.
abbrev arrived : World
arrived = (update_order_status setting 30 1 delivered shop).1

points_arrived :
    (arrived.loyalty.users
      ≡ record customer {
        loyalty_points = 110;
        lifetime_loyalty_points = 110;
        referral_reward_unlocked = true;
      }
        ∷ record friend {
          loyalty_points = 160;
          lifetime_loyalty_points = 160;
          successful_referral_count = 1;
        }
        ∷ [])
unfolding update_order_status award_order_delivery_rewards finalize_reserved_loyalty_redemption
    award_loyalty_points
points_arrived = refl

update-moves_example :
    let r = update_order_status setting 30 1 shipped shop in
    ((may_move placed shipped ≡ true → (r.0 ≡ done) × (status_at 1 r.1 ≡ some shipped))
      × (may_move placed shipped ≡ false → (e : TransitionError) × (r ≡ (refused e, shop))))
    × ((j : ℕ) → 1 ≢ j → status_at j r.1 ≡ status_at j shop)
update-moves_example = update-moves setting 30 1 shipped held shop refl

final_stays_example :
    status_at 1 (handle_all setting (by_admin 40 1 shipped ∷ by_user 50 4 1 ∷ []) gone)
    ≡ some cancelled
unfolding is_finalized_order_status
final_stays_example =
    final_stays setting 1 cancelled refl (by_admin 40 1 shipped ∷ by_user 50 4 1 ∷ []) gone
      gone_cancelled

cancel_once_example :
    (status_at 1 gone ≡ some cancelled)
    × (gone.products ≡ given_back held shop.products)
    × ((later : ℕ) (d : Order)
        → d.id ≡ 1
        → (perform_order_cancellation setting later d gone).1 ≡ gone)
unfolding same_status
cancel_once_example = cancel_once setting 20 held held shop refl refl

took : (reserve_inventory_for_items nobody_down held.items (kurta ∷ [])).0 ≡ ok tt
unfolding reserve_inventory_for_items
took = refl

cancel-restores_example :
    shelf 6 gone.products ≡ shelf 6 (backfill_missing_product_inventory (kurta ∷ []))
unfolding same_status
cancel-restores_example =
    cancel-restores setting 20 nobody_down held held
      (record { id = 6; name = "Kurta"; quantity = 2 }) [] (kurta ∷ []) shop refl refl took refl
      refl refl 6

deliver_once_example :
    let w' = (apply_order_status_transition setting 30 held delivered none shop).1 in
    (status_at 1 w' ≡ some delivered)
    × ((later : ℕ) (d : Order) (more : Additional)
        → d.id ≡ 1
        → SameGoods w' (apply_order_status_transition setting later d delivered more w').1)
unfolding is_finalized_order_status
deliver_once_example = deliver_once setting 30 held held none shop refl refl

requests-Booked_example :
    IsBooked shop.loyalty
      (handle_all setting (by_admin 30 1 delivered ∷ by_user 50 4 1 ∷ []) shop).loyalty
requests-Booked_example =
    requests-Booked setting (by_admin 30 1 delivered ∷ by_user 50 4 1 ∷ []) shop
