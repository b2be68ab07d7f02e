-- ===== src/Inventory.antt =====
-- server/services/productInventoryService.js: the stock of products (server/models/productModel.js)
-- and its reservation for the items of an order. Ids are numbers; a field that old documents may
-- lack is an option.
pub mod Shelf
pub mod Reserve
pub mod Enough
mod Tests
use Prim.Native.String.{String}
use lavish_fashion.Prelude.{
  ℕ, ◌+◌, ◌-◌, Bool, true, false, not, ◌&&◌, Option, none, some, List, [], ◌∷◌, ◌++◌, map, Exec,
  Result, ok, err, find_by, update_by, ltb, leb, ◌==◌, if◌then◌else◌,
}

abbrev pub default_product_stock : ℕ
default_product_stock = 25

abbrev pub default_low_stock_threshold : ℕ
default_low_stock_threshold = 5

pub data ProductStatus : Type 0 where
  active draft archived : ProductStatus

pub record Product : Type 0 where
  pub id : ℕ
  pub sku : Option String
  pub stock : Option ℕ
  pub low_stock_threshold : Option ℕ
  pub status : Option ProductStatus
  pub is_featured : Option Bool

abbrev pub product_key : Product → ℕ
product_key p = p.id

abbrev pub or_default : {A : Type 0} → A → Option A → A
or_default d none = d
or_default d (some a) = a

-- The five updates of the backfill touch five fields, each where it is missing.
unfoldable pub backfill : Product → Product
backfill p = record p {
  sku = some (or_default "" p.sku);
  stock = some (or_default default_product_stock p.stock);
  low_stock_threshold = some (or_default default_low_stock_threshold p.low_stock_threshold);
  status = some (or_default active p.status);
  is_featured = some (or_default false p.is_featured);
}

unfoldable pub backfill_missing_product_inventory : List Product → List Product
unfolding backfill
backfill_missing_product_inventory = map backfill

pub data InventoryState : Type 0 where
  out_of_stock low_stock healthy : InventoryState

unfoldable pub inventory_state : ℕ → ℕ → InventoryState
inventory_state stock threshold =
    if stock == 0 then out_of_stock else if leb stock threshold then low_stock else healthy

pub record NormalProduct : Type 0 where
  pub sku : String
  pub stock : ℕ
  pub low_stock_threshold : ℕ
  pub status : ProductStatus
  pub is_featured : Bool
  pub inventory_state : InventoryState

-- `trim` is String.prototype.trim.
unfoldable pub normalize_inventory_fields :
    (String → String) → Option Product → Option NormalProduct
unfolding inventory_state
normalize_inventory_fields trim none = none
normalize_inventory_fields trim (some p) =
    let stock = or_default default_product_stock p.stock in
    let threshold = or_default default_low_stock_threshold p.low_stock_threshold in
    some (record {
      sku = trim (or_default "" p.sku);
      stock = stock;
      low_stock_threshold = threshold;
      status = or_default active p.status;
      is_featured = or_default false p.is_featured;
      inventory_state = inventory_state stock threshold;
    })

-- An item of an order, with a whole quantity.
pub record OrderItem : Type 0 where
  pub id : ℕ
  pub name : String
  pub quantity : ℕ

-- What a reservation throws: the item that is short, or an error of the database.
pub data ReserveError : Type 0 where
  insufficient_stock : String → ReserveError
  database_down : ReserveError

-- `$inc` on a missing field sets it.
abbrev pub add_stock : ℕ → Product → Product
add_stock q p = record p { stock = some (or_default 0 p.stock + q) }

abbrev pub take_stock : ℕ → Product → Product
take_stock q p = record p { stock = some (or_default 0 p.stock - q) }

unfoldable pub release_item : OrderItem → List Product → List Product
release_item item = update_by product_key item.id (add_stock item.quantity)

-- The unordered bulk write, in the order of the items; an id without a product is skipped.
unfoldable pub release_inventory_for_items : List OrderItem → List Product → List Product
unfolding release_item
release_inventory_for_items [] products = products
release_inventory_for_items (i ∷ is) products =
    release_inventory_for_items is (release_item i products)

unfoldable pub is_not_archived : Option ProductStatus → Bool
is_not_archived (some archived) = false
is_not_archived _ = true

unfoldable pub has_stock : ℕ → Option ℕ → Bool
has_stock q none = false
has_stock q (some n) = leb q n

-- The filter of the guarded write.
unfoldable pub can_take : ℕ → Product → Bool
unfolding is_not_archived has_stock
can_take q p = is_not_archived p.status && has_stock q p.stock

-- findOneAndUpdate, for one item; `down` says for which items the database throws.
unfoldable pub reserve_item :
    (OrderItem → Bool) → OrderItem → Exec (List Product) ReserveError (Unit {0})
unfolding can_take
reserve_item down item products =
    if down item
    then (err database_down, products)
    else elim (find_by product_key item.id products) [
      | none ↦ (err (insufficient_stock item.name), products)
      | some p ↦
          if can_take item.quantity p
          then (ok tt, update_by product_key item.id (take_stock item.quantity) products)
          else (err (insufficient_stock item.name), products)
    ]

-- What follows one write: the rest of the loop, or the `catch`, which releases what is reserved;
-- that release is taken not to throw.
unfoldable pub or_release :
    Exec (List Product) ReserveError (Unit {0})
    → List OrderItem
    → Result ReserveError (Unit {0}) × List Product
    → Result ReserveError (Unit {0}) × List Product
unfolding release_inventory_for_items
or_release rest reserved (ok done, products) = rest products
or_release rest reserved (err e, products) = (err e, release_inventory_for_items reserved products)

-- The loop, with the items reserved so far.
module _ (down : OrderItem → Bool) where
  unfoldable pub reserve_loop :
      List OrderItem → List OrderItem → Exec (List Product) ReserveError (Unit {0})
  unfolding reserve_item or_release
  reserve_loop reserved [] products = (ok tt, products)
  reserve_loop reserved (i ∷ is) products =
      or_release (reserve_loop (reserved ++ i ∷ []) is) reserved (reserve_item down i products)

  -- Without items nothing is done, not even the backfill.
  unfoldable pub reserve_inventory_for_items :
      List OrderItem → Exec (List Product) ReserveError (Unit {0})
  unfolding reserve_loop backfill_missing_product_inventory
  reserve_inventory_for_items [] products = (ok tt, products)
  reserve_inventory_for_items (i ∷ is) products =
      reserve_loop [] (i ∷ is) (backfill_missing_product_inventory products)
