-- ===== src/Inventory/Tests.antt =====
-- Instances of the theorems on stock.
use Prim.Native.String.{String}
use lavish_fashion.Prelude.{ℕ, ◌≡◌, ◌↔◌, refl, none, some, List, [], ◌∷◌, ok, err}
use lavish_fashion.Inventory.{
  Product, OrderItem, ReserveError, active, reserve_inventory_for_items,
  backfill_missing_product_inventory,
}
use lavish_fashion.Inventory.Shelf.{shelf, raise, demand}
use lavish_fashion.Inventory.Reserve.{reserve_inventory-shelf}
use lavish_fashion.Inventory.Enough.{AllFit, never, reserve_inventory_iff}

abbrev shirt : Product
shirt = record {
  id = 1;
  sku = none;
  stock = some 5;
  low_stock_threshold = none;
  status = some active;
  is_featured = none;
}

-- A product of before stocks were counted.
abbrev scarf : Product
scarf = record shirt { id = 2; stock = none }

abbrev ask : ℕ → ℕ → OrderItem
ask k q = record { id = k; name = "item"; quantity = q }

abbrev two_shirts : List OrderItem
two_shirts = ask 2 1 ∷ ask 1 2 ∷ []

reserve_inventory-shelf_example :
    let after = reserve_inventory_for_items never (ask 2 1 ∷ ask 1 9 ∷ []) (shirt ∷ scarf ∷ []) in
    let before = shelf 2 (backfill_missing_product_inventory (shirt ∷ scarf ∷ [])) in
    (after.0 ≡ ok tt → before ≡ raise (demand 2 (ask 2 1 ∷ ask 1 9 ∷ [])) (shelf 2 after.1))
    × ((e : ReserveError) → after.0 ≡ err e → shelf 2 after.1 ≡ before)
reserve_inventory-shelf_example =
    reserve_inventory-shelf never 2 (ask 2 1) (ask 1 9 ∷ []) (shirt ∷ scarf ∷ [])

reserve_inventory_iff_example :
    ((reserve_inventory_for_items never two_shirts (shirt ∷ scarf ∷ [])).0 ≡ ok tt)
    ↔ AllFit
        (λ k. demand k two_shirts)
        two_shirts
        (backfill_missing_product_inventory (shirt ∷ scarf ∷ []))
reserve_inventory_iff_example = reserve_inventory_iff two_shirts (shirt ∷ scarf ∷ [])

both_go : (reserve_inventory_for_items never two_shirts (shirt ∷ scarf ∷ [])).0 ≡ ok tt
unfolding reserve_inventory_for_items
both_go = refl

abbrev keep_text : String → String
keep_text s = s
