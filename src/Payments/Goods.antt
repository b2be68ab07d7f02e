-- ===== src/Payments/Goods.antt =====
-- The goods of the shop: what is in stock of a product and what attempts and orders hold of it.
use lavish_fashion.Prelude.{
  ℕ, ◌+◌, ◌≡◌, refl, sym, ap, ◌∙◌, subst, inl, inr, Bool, false, ◌&&◌, Option, none, some, List, [],
  ◌∷◌, sum_by, sum_by-update_by, update_by, find_by-key, ltb, leb, ◌==◌, if◌then◌else◌, Bool-cases,
  Option-cases, arith,
}
use lavish_fashion.Inventory.Shelf.{shelf, raise, demand, raise-raise, raise_zero, release-shelf}
use lavish_fashion.Loyalty.{Store}
use lavish_fashion.Loyalty.Points.{
  find_user, is_reserved, release_from, release_user_reserved_loyalty_points,
}
use lavish_fashion.Orders.{Order}
use lavish_fashion.Orders.World.{World}
use lavish_fashion.Payments.{
  Attempt, AttemptStatus, attempt_key, Shop, find_attempt, PaymentFields, or_else,
}
use lavish_fashion.Payments.Attempts.{
  give_back_stock, give_back_points, mark_given_back, release_resources_for_payment_attempt,
  with_fields, mark_not_completed, is_order_created, mark_payment_attempt_as_not_completed,
}

abbrev pub held_if : Bool → ℕ → ℕ
held_if b n = if b then n else 0

abbrev pub attempt_held : ℕ → Attempt → ℕ
attempt_held k a = held_if a.inventory_reserved (demand k a.items)

abbrev pub order_held : ℕ → Order → ℕ
order_held k o = held_if o.inventory_reserved (demand k o.items)

abbrev pub held_by_attempts : ℕ → Shop → ℕ
held_by_attempts k s = sum_by (attempt_held k) s.attempts

abbrev pub held_by_orders : ℕ → World → ℕ
held_by_orders k w = sum_by (order_held k) w.loyalty.orders

-- The stock of product k with all that is held of it, if there is such a product.
abbrev pub goods : ℕ → Shop → Option ℕ
goods k s = raise (held_by_attempts k s + held_by_orders k s.world) (shelf k s.world.products)

pub raise_more : (a b c : ℕ) (o : Option ℕ) → b + a ≡ c → raise a (raise b o) ≡ raise c o
raise_more a b c o e = raise-raise a b o ∙ ap (λ n. raise n o) e

release_from-orders : (j p : ℕ) (s : Store) → (release_from j p s).1.orders ≡ s.orders
unfolding release_from
release_from-orders j p s = elim (Option-cases (find_user j s)) [
  | inl missing ↦ rw (missing, release_from) refl
  | inr (u, there) ↦ elim (Bool-cases (leb p u.reserved_loyalty_points)) [
    | inl enough ↦ rw (there, release_from) (rw enough refl)
    | inr short ↦ elim (Bool-cases (ltb 0 u.reserved_loyalty_points)) [
      | inl some_left ↦ rw (there, release_from) (rw (short, some_left) refl)
      | inr nothing ↦ rw (there, release_from) (rw (short, nothing) refl)
    ]
  ]
]

pub let_go-orders :
    (user : Option ℕ) (p : ℕ) (s : Store)
    → (release_user_reserved_loyalty_points user p s).1.orders ≡ s.orders
unfolding release_user_reserved_loyalty_points
let_go-orders none p s = refl
let_go-orders (some j) p s = elim (Bool-cases (p == 0)) [
  | inl nothing ↦ rw nothing refl
  | inr something ↦ rw something (release_from-orders j p s)
]

points-orders :
    (a : Attempt) (w : World)
    → ((give_back_points a w).loyalty.orders ≡ w.loyalty.orders)
      × ((give_back_points a w).products ≡ w.products)
unfolding give_back_points
points-orders a w = elim (Bool-cases (ltb 0 a.points_redeemed && is_reserved a.redemption_status)) [
  | inr nothing ↦ rw nothing (refl, refl)
  | inl some_points ↦ rw some_points ((let_go-orders a.user_id a.points_redeemed w.loyalty), refl)
]

-- The stock of an attempt goes back to the shelf.
stock-shelf :
    (a : Attempt) (k : ℕ) (w : World)
    → shelf k (give_back_stock a w).products ≡ raise (attempt_held k a) (shelf k w.products)
unfolding give_back_stock
stock-shelf a k w = elim (Bool-cases a.inventory_reserved) [
  | inl held ↦ rw held (release-shelf a.items k w.products)
  | inr free ↦ rw free (sym (raise_zero (shelf k w.products)))
]

stock-loyalty : (a : Attempt) (w : World) → (give_back_stock a w).loyalty ≡ w.loyalty
unfolding give_back_stock
stock-loyalty a w = elim (Bool-cases a.inventory_reserved) [
  | inl held ↦ rw held refl
  | inr free ↦ rw free refl
]

-- A release takes what the attempt holds off it and puts it on the shelf.
pub released-goods :
    (a : Attempt) (k : ℕ) (s : Shop)
    → find_attempt a.id s ≡ some a
    → goods k (release_resources_for_payment_attempt a s) ≡ goods k s
unfolding release_resources_for_payment_attempt
released-goods a k s there =
    let stock = give_back_stock a s.world in
    let (orders, products) = points-orders a stock in
    let attempts = update_by attempt_key a.id (mark_given_back a) s.attempts in
    let held = sum_by (attempt_held k) attempts in
    let off =
      sum_by-update_by attempt_key (attempt_held k) a.id (mark_given_back a) s.attempts a there in
    let same : sum_by (order_held k) (give_back_points a stock).loyalty.orders
        ≡ held_by_orders k s.world =
      ap (sum_by (order_held k)) (orders ∙ ap (λ l. l.orders) (stock-loyalty a s.world)) in
    ap (λ n. raise (held + n) (shelf k (give_back_points a stock).products)) same
    ∙ ap (λ ps. raise (held + held_by_orders k s.world) (shelf k ps)) products
    ∙ ap (raise (held + held_by_orders k s.world)) (stock-shelf a k s.world)
    ∙ raise_more (held + held_by_orders k s.world) (attempt_held k a)
        (held_by_attempts k s + held_by_orders k s.world) (shelf k s.world.products)
        (omega (arith, off))

fields-held :
    (k : ℕ) (fields : Option PaymentFields) (a : Attempt)
    → attempt_held k (with_fields fields a) ≡ attempt_held k a
fields-held k none a = refl
fields-held k (some f) a = refl

pub attempts_kept :
    (k j : ℕ) (f : Attempt → Attempt) (rest : List Attempt)
    → ((a : Attempt) → attempt_held k (f a) ≡ attempt_held k a)
    → sum_by (attempt_held k) (update_by attempt_key j f rest) ≡ sum_by (attempt_held k) rest
attempts_kept k j f [] same = refl
attempts_kept k j f (a ∷ rest) same = ground (arith, same a, attempts_kept k j f rest same)

-- An attempt that fails or is cancelled leaves the goods of every product as they were.
pub not_completed-goods :
    (status : AttemptStatus) (event : Option ℕ) (fields : Option PaymentFields) (j k : ℕ) (s : Shop)
    → goods k (mark_payment_attempt_as_not_completed status event fields j s) ≡ goods k s
unfolding mark_payment_attempt_as_not_completed
not_completed-goods status event fields j k s = elim (Option-cases (find_attempt j s)) [
  | inl missing ↦ rw (missing, mark_payment_attempt_as_not_completed) refl
  | inr (a, there) ↦ elim (Bool-cases (is_order_created a.status)) [
    | inl over ↦ rw (there, mark_payment_attempt_as_not_completed) (rw over refl)
    | inr going ↦
        let back = release_resources_for_payment_attempt a s in
        rw (there, mark_payment_attempt_as_not_completed)
          (rw going (
            ap (λ n. raise (n + held_by_orders k back.world) (shelf k back.world.products))
              (attempts_kept k j (mark_not_completed status event fields a) back.attempts (λ x.
                fields-held k fields (record x {
                  status = status;
                  gateway_event_id = or_else event a.gateway_event_id;
                })))
            ∙ released-goods a k s (
                subst (λ i. find_attempt i s ≡ some a)
                  (sym (find_by-key attempt_key j s.attempts a there)) there)))
  ]
]

-- The shelf after an attempt without an order fell through.
pub not_completed-shelf :
    (status : AttemptStatus) (event : Option ℕ) (fields : Option PaymentFields) (j k : ℕ)
    (a : Attempt) (s : Shop)
    → find_attempt j s ≡ some a
    → is_order_created a.status ≡ false
    → shelf k (mark_payment_attempt_as_not_completed status event fields j s).world.products
      ≡ raise (attempt_held k a) (shelf k s.world.products)
unfolding mark_payment_attempt_as_not_completed release_resources_for_payment_attempt
not_completed-shelf status event fields j k a s there going =
    rw (there, mark_payment_attempt_as_not_completed)
      (rw going
        (ap (shelf k) (points-orders a (give_back_stock a s.world)).1 ∙ stock-shelf a k s.world))
