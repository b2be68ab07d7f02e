-- ===== src/Inventory/Shelf.antt =====
-- The stock of a product, what items ask of it, and how a write to one product changes both.
use lavish_fashion.Prelude.{
  ℕ, ◌+◌, ◌≡◌, inl, inr, refl, sym, ap, ◌∙◌, Bool, true, false, Option, none, some, List, [], ◌∷◌,
  sum_by, find_by, update_by, ◌==◌, if◌then◌else◌, Bool-cases, Option-cases, arith,
}
use lavish_fashion.Inventory.{
  Product, OrderItem, product_key, or_default, add_stock, take_stock, can_take, has_stock,
  release_item, release_inventory_for_items,
}

-- The stock of product k, if there is such a product.
abbrev shelf_of : Option Product → Option ℕ
shelf_of none = none
shelf_of (some p) = some (or_default 0 p.stock)

abbrev pub shelf : ℕ → List Product → Option ℕ
shelf k products = shelf_of (find_by product_key k products)

abbrev pub raise : ℕ → Option ℕ → Option ℕ
raise n none = none
raise n (some m) = some (m + n)

-- What items ask of product k.
abbrev pub asks : ℕ → OrderItem → ℕ
asks k i = if i.id == k then i.quantity else 0

abbrev pub demand : ℕ → List OrderItem → ℕ
demand k = sum_by (asks k)

abbrev changed : (ℕ → ℕ) → Bool → Option ℕ → Option ℕ
changed g false o = o
changed g true none = none
changed g true (some n) = some (g n)

shelf-update :
    (f : Product → Product) (g : ℕ → ℕ) (j k : ℕ) (ps : List Product)
    → ((p : Product) → ((f p).id ≡ p.id) × (or_default 0 (f p).stock ≡ g (or_default 0 p.stock)))
    → shelf k (update_by product_key j f ps) ≡ changed g (j == k) (shelf k ps)
shelf-update f g j k [] changes = ground arith
shelf-update f g j k (p ∷ ps) changes = ground (arith, changes p, shelf-update f g j k ps changes)

release_item-shelf :
    (i : OrderItem) (k : ℕ) (ps : List Product)
    → shelf k (release_item i ps) ≡ raise (asks k i) (shelf k ps)
unfolding release_item
release_item-shelf i k ps = ground (
  arith,
  shelf-update (add_stock i.quantity) (λ n. n + i.quantity) i.id k ps (λ p. (refl, refl)),
  Option-cases (shelf k ps),
)

pub raise-raise : (a b : ℕ) (o : Option ℕ) → raise a (raise b o) ≡ raise (b + a) o
raise-raise a b none = refl
raise-raise a b (some n) = ground arith

pub raise_zero : (o : Option ℕ) → raise 0 o ≡ o
raise_zero none = refl
raise_zero (some n) = ground arith

pub release-shelf :
    (is : List OrderItem) (k : ℕ) (ps : List Product)
    → shelf k (release_inventory_for_items is ps) ≡ raise (demand k is) (shelf k ps)
unfolding release_inventory_for_items
release-shelf [] k ps = sym (raise_zero (shelf k ps))
release-shelf (i ∷ is) k ps =
    release-shelf is k (release_item i ps)
    ∙ ap (raise (demand k is)) (release_item-shelf i k ps)
    ∙ raise-raise (demand k is) (asks k i) (shelf k ps)

-- Whether product k is there, not archived, and has a stock of at least q.
unfoldable pub fits_in : ℕ → Option Product → Bool
unfolding can_take
fits_in q none = false
fits_in q (some p) = can_take q p

abbrev pub fits : ℕ → ℕ → List Product → Bool
fits q k ps = fits_in q (find_by product_key k ps)

pub take-shelf :
    (i : OrderItem) (k : ℕ) (ps : List Product)
    → fits i.quantity i.id ps ≡ true
    → shelf k ps
      ≡ raise (asks k i) (shelf k (update_by product_key i.id (take_stock i.quantity) ps))
unfolding fits_in can_take has_stock
take-shelf i k [] h = refl
take-shelf i k (p ∷ ps) h = ground (arith, take-shelf i k ps)

asks_same :
    (k : ℕ) (i : OrderItem) (p : Product)
    → (p.id == i.id) ≡ true
    → (p.id == k) ≡ true
    → asks k i ≡ i.quantity
asks_same k i p same wanted = ground arith

asks_other :
    (k : ℕ) (i : OrderItem) (p : Product)
    → (p.id == i.id) ≡ true
    → (p.id == k) ≡ false
    → asks k i ≡ 0
asks_other k i p same unwanted = ground arith

asks_apart :
    (k : ℕ) (i : OrderItem) (p : Product)
    → (p.id == i.id) ≡ false
    → (p.id == k) ≡ true
    → asks k i ≡ 0
asks_apart k i p other wanted = ground arith

nothing_more : (k : ℕ) (i : OrderItem) (q : ℕ) → asks k i ≡ 0 → asks k i + q ≡ q
nothing_more k i q h = omega (arith, h)

can_take-take :
    (a q : ℕ) (p : Product) → can_take a p ≡ true → can_take q (take_stock a p) ≡ can_take (a + q) p
unfolding can_take has_stock
can_take-take a q p h = ground arith

fits_here :
    (q k : ℕ) (p : Product) (ps : List Product)
    → (p.id == k) ≡ true
    → fits q k (p ∷ ps) ≡ can_take q p
unfolding fits_in
fits_here q k p ps h = rw h

fits_there :
    (q k : ℕ) (p : Product) (ps : List Product)
    → (p.id == k) ≡ false
    → fits q k (p ∷ ps) ≡ fits q k ps
unfolding fits_in
fits_there q k p ps h = rw h

-- Taking from a product that has it leaves room for exactly what it had room for beyond that.
pub fits-take :
    (i : OrderItem) (q k : ℕ) (ps : List Product)
    → fits i.quantity i.id ps ≡ true
    → fits q k (update_by product_key i.id (take_stock i.quantity) ps) ≡ fits (asks k i + q) k ps
unfolding fits_in
fits-take i q k [] h = refl
fits-take i q k (p ∷ ps) h = elim (Bool-cases (p.id == i.id)) [
  | inl same ↦ elim (Bool-cases (p.id == k)) [
    | inl wanted ↦ rw same (
        fits_here q k (take_stock i.quantity p) ps wanted
        ∙ can_take-take i.quantity q p (sym (fits_here i.quantity i.id p ps same) ∙ h)
        ∙ ap (λ a. can_take (a + q) p) (sym (asks_same k i p same wanted))
        ∙ sym (fits_here (asks k i + q) k p ps wanted))
    | inr unwanted ↦ rw same (
        fits_there q k (take_stock i.quantity p) ps unwanted
        ∙ ap (λ a. fits a k ps) (sym (nothing_more k i q (asks_other k i p same unwanted)))
        ∙ sym (fits_there (asks k i + q) k p ps unwanted))
  ]
  | inr other ↦ elim (Bool-cases (p.id == k)) [
    | inl wanted ↦ rw other (
        fits_here q k p (update_by product_key i.id (take_stock i.quantity) ps) wanted
        ∙ ap (λ a. can_take a p) (sym (nothing_more k i q (asks_apart k i p other wanted)))
        ∙ sym (fits_here (asks k i + q) k p ps wanted))
    | inr unwanted ↦ rw other (
        fits_there q k p (update_by product_key i.id (take_stock i.quantity) ps) unwanted
        ∙ fits-take i q k ps (sym (fits_there i.quantity i.id p ps other) ∙ h)
        ∙ sym (fits_there (asks k i + q) k p ps unwanted))
  ]
]
