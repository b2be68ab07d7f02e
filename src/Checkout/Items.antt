-- ===== src/Checkout/Items.antt =====
-- `buildNormalizedOrderItems` of server/services/checkoutPricingService.js. Texts that are only
-- copied (name, sku, image, size, fit) are left out.
use lavish_fashion.Prelude.{
  ℕ, suc, zero, ◌+◌, ◌*◌, Bool, true, false, ◌&&◌, Option, none, some, List, [], ◌∷◌, map, find_by,
  Result, ok, err, and_then, ltb, if◌then◌else◌,
}
use lavish_fashion.Money.{paisa, round_to_paise}
use lavish_fashion.Inventory.{Product, archived, ProductStatus, backfill, or_default}

pub data CheckoutError : Type 0 where
  no_items invalid_item unavailable no_longer_available : CheckoutError
  only_left : ℕ → CheckoutError
  coupon_invalid coupon_not_yet coupon_expired coupon_minimum coupon_used_up coupon_used_by_user :
      CheckoutError
  user_not_found redemption_refused : CheckoutError

-- `roundCurrency`: to whole paise.
unfoldable pub round_currency : ℕ → ℕ
unfolding round_to_paise
round_currency n = round_to_paise n * paisa

-- An item as it is sent: its product, if given, and its quantity, if that is a whole number.
pub record RawItem : Type 0 where
  pub id : Option ℕ
  pub quantity : Option ℕ

pub record Listed : Type 0 where
  pub product : Product
  pub price : ℕ

abbrev pub listed_key : Listed → ℕ
listed_key l = l.product.id

pub record NormalItem : Type 0 where
  pub id : ℕ
  pub price : ℕ
  pub quantity : ℕ

is_archived : Option ProductStatus → Bool
is_archived (some archived) = true
is_archived _ = false

-- The tests on the product of an item.
take_listed : Bool → ℕ → Option Listed → Result CheckoutError NormalItem
unfolding is_archived
take_listed check quantity none = err unavailable
take_listed check quantity (some l) =
    if is_archived l.product.status
    then err no_longer_available
    else if check && ltb (or_default 0 l.product.stock) quantity
    then err (only_left (or_default 0 l.product.stock))
    else ok (record { id = l.product.id; price = l.price; quantity = quantity })

pub normalize_item : Bool → List Listed → RawItem → Result CheckoutError NormalItem
unfolding take_listed
normalize_item check catalog raw = elim raw.id [
  | none ↦ err invalid_item
  | some k ↦ elim raw.quantity [
    | none ↦ err invalid_item
    | some zero ↦ err invalid_item
    | some (suc n) ↦ take_listed check (suc n) (find_by listed_key k catalog)
  ]
]

-- The loop, up to the first item that is refused.
unfoldable pub normalize_items :
    Bool → List Listed → List RawItem → Result CheckoutError (List NormalItem)
unfolding normalize_item
normalize_items check catalog [] = ok []
normalize_items check catalog (raw ∷ raws) =
    let rest = normalize_items check catalog raws in
    and_then (normalize_item check catalog raw) λ i. and_then rest λ is. ok (i ∷ is)

unfoldable pub sum_of : List NormalItem → ℕ
sum_of [] = 0
sum_of (i ∷ is) = i.price * i.quantity + sum_of is

pub record Basket : Type 0 where
  pub items : List NormalItem
  pub subtotal : ℕ

abbrev pub backfill_listed : Listed → Listed
backfill_listed l = record l { product = backfill l.product }

unfoldable pub build_normalized_order_items :
    Bool → List Listed → List RawItem → Result CheckoutError Basket
unfolding normalize_items sum_of round_currency backfill
build_normalized_order_items check catalog [] = err no_items
build_normalized_order_items check catalog (raw ∷ raws) =
    and_then (normalize_items check (map backfill_listed catalog) (raw ∷ raws))
      λ is. ok (record { items = is; subtotal = round_currency (sum_of is) })
