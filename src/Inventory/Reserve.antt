-- ===== src/Inventory/Reserve.antt =====
-- The reservation of stock for an order is all or nothing, and never oversells.
use Prim.Native.String.{String}
use lavish_fashion.Prelude.{
  ℕ, ◌≡◌, ◌⊎◌, inl, inr, refl, sym, ap, ◌∙◌, subst, Bool, true, false, Option, some, List, [], ◌∷◌,
  ◌++◌, sum_by-append, Result, ok, err, find_by, update_by, Bool-cases, Option-cases, arith,
}
use lavish_fashion.Inventory.{
  Product, OrderItem, ReserveError, product_key, take_stock, can_take, release_inventory_for_items,
  reserve_item, or_release, reserve_loop, normalize_inventory_fields, backfill,
  reserve_inventory_for_items, backfill_missing_product_inventory, insufficient_stock,
  database_down,
}
use lavish_fashion.Inventory.Shelf.{
  shelf, raise, asks, demand, raise-raise, raise_zero, release-shelf, fits_in, fits, take-shelf,
}

pub reserve_item-cases :
    (down : OrderItem → Bool) (i : OrderItem) (ps : List Product)
    → ((e : ReserveError) × (reserve_item down i ps ≡ (err e, ps))
        × (down i ≡ false → fits i.quantity i.id ps ≡ false))
      ⊎ ((reserve_item down i ps ≡ (ok tt, update_by product_key i.id (take_stock i.quantity) ps))
          × (fits i.quantity i.id ps ≡ true))
unfolding reserve_item fits_in
reserve_item-cases down i ps = elim (Bool-cases (down i)) [
  | inl broken ↦ inl (database_down, (rw broken), λ up. cc)
  | inr up ↦ elim (Option-cases (find_by product_key i.id ps)) [
    | inl missing ↦
        inl (insufficient_stock i.name, (rw (up, missing, reserve_item)), λ u. rw missing)
    | inr (p, there) ↦ elim (Bool-cases (can_take i.quantity p)) [
      | inl enough ↦ inr ((rw (up, there, reserve_item) (rw enough)), (rw there enough))
      | inr short ↦ inl (
        insufficient_stock i.name,
        (rw (up, there, reserve_item) (rw short)),
        λ u. rw there short,
      )
    ]
  ]
]

pub loop_fails :
    (down : OrderItem → Bool) (reserved : List OrderItem) (i : OrderItem) (is : List OrderItem)
    (ps : List Product) (e : ReserveError)
    → reserve_item down i ps ≡ (err e, ps)
    → reserve_loop down reserved (i ∷ is) ps ≡ (err e, release_inventory_for_items reserved ps)
unfolding reserve_loop or_release
loop_fails down reserved i is ps e fails =
    ap (or_release (reserve_loop down (reserved ++ i ∷ []) is) reserved) fails

pub loop_takes :
    (down : OrderItem → Bool) (reserved : List OrderItem) (i : OrderItem) (is : List OrderItem)
    (ps ps' : List Product)
    → reserve_item down i ps ≡ (ok tt, ps')
    → reserve_loop down reserved (i ∷ is) ps ≡ reserve_loop down (reserved ++ i ∷ []) is ps'
unfolding reserve_loop or_release
loop_takes down reserved i is ps ps' takes =
    ap (or_release (reserve_loop down (reserved ++ i ∷ []) is) reserved) takes

abbrev LoopEnd :
    ℕ
    → List OrderItem
    → List OrderItem
    → Option ℕ
    → Option ℕ
    → Result ReserveError (Unit {0})
    → Type 0
LoopEnd k is reserved before after (ok done) = before ≡ raise (demand k is) after
LoopEnd k is reserved before after (err e) = after ≡ raise (demand k reserved) before

one_more :
    (k : ℕ) (i : OrderItem) (is reserved : List OrderItem) (before between after : Option ℕ)
    (r : Result ReserveError (Unit {0}))
    → before ≡ raise (asks k i) between
    → LoopEnd k is (reserved ++ i ∷ []) between after r
    → LoopEnd k (i ∷ is) reserved before after r
one_more k i is reserved before between after (ok done) taken rest =
    taken
    ∙ ap (raise (asks k i)) rest
    ∙ raise-raise (asks k i) (demand k is) after
    ∙ ap (λ n. raise n after) (omega arith)
one_more k i is reserved before between after (err e) taken rest =
    rest
    ∙ ap (λ n. raise n between) (sum_by-append (asks k) reserved (i ∷ []) ∙ omega arith)
    ∙ sym
        (ap (raise (demand k reserved)) taken ∙ raise-raise (demand k reserved) (asks k i) between)

-- What the loop leaves on each shelf, with `reserved` taken before it.
reserve_loop-shelf :
    (down : OrderItem → Bool) (k : ℕ) (is reserved : List OrderItem) (ps : List Product)
    → LoopEnd k is reserved
        (shelf k ps)
        (shelf k (reserve_loop down reserved is ps).1)
        (reserve_loop down reserved is ps).0
unfolding reserve_loop
reserve_loop-shelf down k [] reserved ps = sym (raise_zero (shelf k ps))
reserve_loop-shelf down k (i ∷ is) reserved ps = elim (reserve_item-cases down i ps) [
  | inl (e, fails, short) ↦
      rw (loop_fails down reserved i is ps e fails) (release-shelf reserved k ps)
  | inr (takes, enough) ↦
      rw
        (loop_takes down reserved i is ps (update_by product_key i.id (take_stock i.quantity) ps)
          takes)
        (one_more k i is reserved (shelf k ps)
          (shelf k (update_by product_key i.id (take_stock i.quantity) ps)) _ _
          (take-shelf i k ps enough)
          (reserve_loop-shelf down k is (reserved ++ i ∷ [])
            (update_by product_key i.id (take_stock i.quantity) ps)))
]

-- A reservation that goes through takes from every product exactly what the items ask of it in
-- all, so none had less; one that throws, for want of stock or because the database failed at any
-- item, leaves every stock as the backfill made it, where the release that undoes it does not throw.
pub reserve_inventory-shelf :
    (down : OrderItem → Bool) (k : ℕ) (i : OrderItem) (is : List OrderItem) (ps : List Product)
    → let after = reserve_inventory_for_items down (i ∷ is) ps in
      let before = shelf k (backfill_missing_product_inventory ps) in
      (after.0 ≡ ok tt → before ≡ raise (demand k (i ∷ is)) (shelf k after.1))
      × ((e : ReserveError) → after.0 ≡ err e → shelf k after.1 ≡ before)
unfolding reserve_inventory_for_items
reserve_inventory-shelf down k i is ps =
    let start = backfill_missing_product_inventory ps in
    let end = reserve_loop-shelf down k (i ∷ is) [] start in
    (
      λ done.
          subst
            (LoopEnd k (i ∷ is) [] (shelf k start)
              (shelf k (reserve_loop down [] (i ∷ is) start).1))
            done end,
      λ e thrown.
          subst
            (LoopEnd k (i ∷ is) [] (shelf k start)
              (shelf k (reserve_loop down [] (i ∷ is) start).1))
            thrown end
          ∙ raise_zero (shelf k start),
    )

-- Releasing the items of a reservation that went through puts every stock back to what the
-- backfill made it.
pub release-reserve_inventory :
    (down : OrderItem → Bool) (k : ℕ) (i : OrderItem) (is : List OrderItem) (ps : List Product)
    → (reserve_inventory_for_items down (i ∷ is) ps).0 ≡ ok tt
    → shelf k
        (release_inventory_for_items (i ∷ is) (reserve_inventory_for_items down (i ∷ is) ps).1)
      ≡ shelf k (backfill_missing_product_inventory ps)
release-reserve_inventory down k i is ps done =
    release-shelf (i ∷ is) k (reserve_inventory_for_items down (i ∷ is) ps).1
    ∙ sym ((reserve_inventory-shelf down k i is ps).0 done)

-- The backfill writes the defaults that `normalize_inventory_fields` would show: a product reads
-- the same before and after it.
pub normalize-backfill :
    (trim : String → String) (p : Product)
    → normalize_inventory_fields trim (some (backfill p)) ≡ normalize_inventory_fields trim (some p)
unfolding normalize_inventory_fields backfill
normalize-backfill trim p = refl
