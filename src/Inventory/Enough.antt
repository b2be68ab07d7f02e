-- ===== src/Inventory/Enough.antt =====
-- When a reservation goes through: exactly when the whole order fits.
use lavish_fashion.Prelude.{
  ℕ, ◌+◌, ◌≡◌, ◌↔◌, ◌⊎◌, inl, inr, refl, sym, ap, ◌∙◌, subst, Bool, true, false, List, [], ◌∷◌,
  ◌++◌, All, ok, update_by, ◌==◌, Bool-cases, arith,
}
use lavish_fashion.Inventory.{
  Product, OrderItem, product_key, take_stock, can_take, has_stock, reserve_loop,
  reserve_inventory_for_items, backfill_missing_product_inventory,
}
use lavish_fashion.Inventory.Shelf.{demand, fits, fits_in, fits-take}
use lavish_fashion.Inventory.Reserve.{reserve_item-cases, loop_fails, loop_takes}

-- Every item's product can give all that the items together ask of it.
abbrev pub AllFit : (ℕ → ℕ) → List OrderItem → List Product → Type 0
AllFit wanted is ps = All (λ i. fits (wanted i.id) i.id ps ≡ true) is

abbrev pub never : OrderItem → Bool
never i = false

-- What holds of the id of every item holds of any id, unless no item asks for it.
asked_or_not :
    (Q : ℕ → Type 0) (k : ℕ) (is : List OrderItem) → All (λ i. Q i.id) is → (demand k is ≡ 0) ⊎ Q k
asked_or_not Q k [] h = inl refl
asked_or_not Q k (i ∷ is) h = elim (Bool-cases (i.id == k)) [
  | inl same ↦ inr (subst Q (ground (arith, same)) h.0)
  | inr other ↦ elim (asked_or_not Q k is h.1) [
    | inl nothing ↦ inl (rw other (omega (arith, nothing)))
    | inr q ↦ inr q
  ]
]

All-map :
    (P Q : OrderItem → Type 0) (is : List OrderItem)
    → ((i : OrderItem) → P i → Q i)
    → All P is
    → All Q is
All-map P Q [] f h = tt
All-map P Q (i ∷ is) f h = (f i h.0, All-map P Q is f h.1)

only_first :
    (i : OrderItem) (is : List OrderItem) → demand i.id is ≡ 0 → demand i.id (i ∷ is) ≡ i.quantity
only_first i is nothing = ground (arith, nothing)

-- Taking the first item, and then having room for the rest, is having room for all.
fit_first :
    (i : OrderItem) (is : List OrderItem) (ps : List Product)
    → fits i.quantity i.id ps ≡ true
    → AllFit (λ k. demand k is) is (update_by product_key i.id (take_stock i.quantity) ps)
      ↔ AllFit (λ k. demand k (i ∷ is)) (i ∷ is) ps
fit_first i is ps enough = (to, λ h. All-map _ _ is from h.1)
  where
    from :
        (x : OrderItem)
        → fits (demand x.id (i ∷ is)) x.id ps ≡ true
        → fits (demand x.id is) x.id (update_by product_key i.id (take_stock i.quantity) ps) ≡ true
    from x h = fits-take i (demand x.id is) x.id ps enough ∙ h

    back :
        (x : OrderItem)
        → fits (demand x.id is) x.id (update_by product_key i.id (take_stock i.quantity) ps) ≡ true
        → fits (demand x.id (i ∷ is)) x.id ps ≡ true
    back x h = sym (fits-take i (demand x.id is) x.id ps enough) ∙ h

    to :
        AllFit (λ k. demand k is) is (update_by product_key i.id (take_stock i.quantity) ps)
        → AllFit (λ k. demand k (i ∷ is)) (i ∷ is) ps
    to h =
        let tail = All-map _ _ is back h in
        (
          elim (asked_or_not (λ k. fits (demand k (i ∷ is)) k ps ≡ true) i.id is tail) [
            | inr fit ↦ fit
            | inl nothing ↦ ap (λ n. fits n i.id ps) (only_first i is nothing) ∙ enough
          ],
          tail,
        )

asks_self :
    (i : OrderItem) (is : List OrderItem) → i.quantity + demand i.id is ≡ demand i.id (i ∷ is)
asks_self i is = ground arith

first_fits :
    (i : OrderItem) (is : List OrderItem) (ps : List Product)
    → fits (demand i.id (i ∷ is)) i.id ps ≡ true
    → fits (i.quantity + demand i.id is) i.id ps ≡ true
first_fits i is ps h = ap (λ n. fits n i.id ps) (asks_self i is) ∙ h

-- If all fit, so does the first item alone.
fits_less : (a b k : ℕ) (ps : List Product) → fits (a + b) k ps ≡ true → fits a k ps ≡ true
unfolding fits_in can_take has_stock
fits_less a b k ps h = ground arith

reserve_loop_iff :
    (is reserved : List OrderItem) (ps : List Product)
    → ((reserve_loop never reserved is ps).0 ≡ ok tt) ↔ AllFit (λ k. demand k is) is ps
unfolding reserve_loop
reserve_loop_iff [] reserved ps = (λ h. tt, λ h. refl)
reserve_loop_iff (i ∷ is) reserved ps = elim (reserve_item-cases never i ps) [
  | inl (e, fails, short) ↦ rw (loop_fails never reserved i is ps e fails) (
    λ h. cc,
    λ h.
        ground (
          arith,
          short refl,
          fits_less i.quantity (demand i.id is) i.id ps (first_fits i is ps h.0),
        ),
  )
  | inr (takes, enough) ↦
      let ps' = update_by product_key i.id (take_stock i.quantity) ps in
      let (to, from) = reserve_loop_iff is (reserved ++ i ∷ []) ps' in
      let (out, back) = fit_first i is ps enough in
      rw (loop_takes never reserved i is ps ps' takes) (λ h. out (to h), λ h. from (back h))
]

-- With the database up, a reservation goes through exactly when the product of every item is
-- there, is not archived, and has, after the backfill, at least what all items together ask of it.
pub reserve_inventory_iff :
    (is : List OrderItem) (ps : List Product)
    → ((reserve_inventory_for_items never is ps).0 ≡ ok tt)
      ↔ AllFit (λ k. demand k is) is (backfill_missing_product_inventory ps)
unfolding reserve_inventory_for_items
reserve_inventory_iff [] ps = (λ h. tt, λ h. refl)
reserve_inventory_iff (i ∷ is) ps =
    reserve_loop_iff (i ∷ is) [] (backfill_missing_product_inventory ps)
