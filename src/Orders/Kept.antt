-- ===== src/Orders/Kept.antt =====
-- What of an order the points, the shipment and the reminders leave alone: its status, and whether
-- it has stock reserved.
use lavish_fashion.Prelude.{
  ℕ, ◌+◌, pos, ◌≡◌, refl, ◌∙◌, inl, inr, Bool, ◌&&◌, Option, none, some, List, [], ◌∷◌, ltb, leb,
  find_by, update_by, Bool-cases, Option-cases, arith,
}
use lavish_fashion.Orders.{Order, OrderStatus, order_key}
use lavish_fashion.Orders.World.{World, set_order}
use lavish_fashion.Loyalty.{TransactionType, Store}
use lavish_fashion.Loyalty.Points.{
  find_user, award_to, covers, reserve_for, release_from, finalize_for, mark_redeemed,
}
use lavish_fashion.Loyalty.Writes.{Steps, IsAboutPoints}

-- The status and the reservation of a stored order.
abbrev pub standing_of : Option Order → Option (OrderStatus × Bool)
standing_of none = none
standing_of (some o) = some (o.status, o.inventory_reserved)

abbrev pub standing_in : ℕ → Store → Option (OrderStatus × Bool)
standing_in k s = standing_of (find_by order_key k s.orders)

pub update-standing :
    (k j : ℕ) (f : Order → Order) (os : List Order)
    → IsAboutPoints f
    → standing_of (find_by order_key k (update_by order_key j f os))
      ≡ standing_of (find_by order_key k os)
update-standing k j f [] about = refl
update-standing k j f (o ∷ os) about = ground (arith, about o, update-standing k j f os about)

-- What a view of the orders needs for all that the loyalty service writes to keep it: it ignores
-- what the points change of an order.
module _ {A : Type 0} (view : List Order → A)
    (law : (j : ℕ) (f : Order → Order) (os : List Order)
      → IsAboutPoints f
      → view (update_by order_key j f os) ≡ view os) where
  abbrev pub KeepsView : Store → Store → Type 0
  KeepsView s t = view t.orders ≡ view s.orders

  award_to-KeepsView :
      (j n : ℕ) (type : TransactionType) (s : Store) → KeepsView s (award_to j (pos n) type s).1
  unfolding award_to covers
  award_to-KeepsView j n type s = elim (Option-cases (find_user j s)) [
    | inl missing ↦ rw (missing, award_to) refl
    | inr (u, there) ↦ rw (there, award_to) refl
  ]

  reserve_for-KeepsView : (j p : ℕ) (s : Store) → KeepsView s (reserve_for j p s).1
  unfolding reserve_for
  reserve_for-KeepsView j p s = elim (Option-cases (find_user j s)) [
    | inl missing ↦ rw (missing, reserve_for) refl
    | inr (u, there) ↦ elim (Bool-cases (leb (u.reserved_loyalty_points + p) u.loyalty_points)) [
      | inl enough ↦ rw (there, reserve_for) (rw enough refl)
      | inr short ↦ rw (there, reserve_for) (rw short refl)
    ]
  ]

  release_from-KeepsView : (j p : ℕ) (s : Store) → KeepsView s (release_from j p s).1
  unfolding release_from
  release_from-KeepsView j p s = elim (Option-cases (find_user j s)) [
    | inl missing ↦ rw (missing, release_from) refl
    | inr (u, there) ↦ elim (Bool-cases (leb p u.reserved_loyalty_points)) [
      | inl enough ↦ rw (there, release_from) (rw enough refl)
      | inr short ↦ elim (Bool-cases (ltb 0 u.reserved_loyalty_points)) [
        | inl some_left ↦ rw (there, release_from) (rw (short, some_left) refl)
        | inr nothing ↦ rw (there, release_from) (rw (short, nothing) refl)
      ]
    ]
  ]

  finalize_for-KeepsView :
      (now : ℕ) (o : Order) (j : ℕ) (s : Store) → KeepsView s (finalize_for now o j s).1
  unfolding finalize_for
  finalize_for-KeepsView now o j s = elim (Option-cases (find_user j s)) [
    | inl missing ↦ rw (missing, finalize_for) refl
    | inr (u, there) ↦
        elim (Bool-cases (
          leb o.points_redeemed u.loyalty_points
          && leb o.points_redeemed u.reserved_loyalty_points)) [
            | inl enough ↦
                rw (there, finalize_for)
                  (rw enough (law o.id (mark_redeemed now o) s.orders (λ x. (refl, refl, refl))))
            | inr short ↦ rw (there, finalize_for) (rw short refl)
          ]
  ]

  pub view_steps : Steps KeepsView
  view_steps = record {
    gain = record {
      same = λ s. refl;
      chain = λ s t u first second. second ∙ first;
      award = λ j n type s. award_to-KeepsView j n type s;
      flag = λ j s. refl;
      count = λ j s. refl;
    };
    reserve = λ j p s. reserve_for-KeepsView j p s;
    let_go = λ j p s. release_from-KeepsView j p s;
    finalize = λ now o j s. finalize_for-KeepsView now o j s;
    order = λ j f s about. law j f s.orders about;
  }

abbrev pub KeepsStanding : ℕ → Store → Store → Type 0
KeepsStanding k s t = standing_in k t ≡ standing_in k s

-- All that the loyalty service writes keeps the standing of every order.
pub standing_steps : (k : ℕ) → Steps (KeepsStanding k)
standing_steps k =
    view_steps (λ os. standing_of (find_by order_key k os))
      (λ j f os about. update-standing k j f os about)

abbrev pub standing : ℕ → World → Option (OrderStatus × Bool)
standing k w = standing_in k w.loyalty

pub set_order-standing :
    (k j : ℕ) (f : Order → Order) (w : World)
    → IsAboutPoints f
    → standing k (set_order j f w) ≡ standing k w
set_order-standing k j f w about = update-standing k j f w.loyalty.orders about
