-- ===== src/Orders/Absorb.antt =====
-- What a request makes of an order, and that a final status absorbs all further requests.
use mathlib.Core.Option.{some-injective}
use lavish_fashion.Prelude.{
  ℕ, ◌≡◌, ◌≢◌, refl, sym, ap, ◌∙◌, subst, ◌⊎◌, inl, inr, true, false, some, List, [], ◌∷◌,
  find_by-key, ◌==◌, ==_iff, Bool-cases, Option-cases, arith,
}
use lavish_fashion.Orders.{Order, OrderStatus, same_status, placed, cancelled, order_key}
use lavish_fashion.Orders.World.{World, find_order}
use lavish_fashion.Orders.Kept.{standing_of}
use lavish_fashion.Orders.Cancel.{Setting, perform_order_cancellation}
use lavish_fashion.Orders.Status.{is_finalized_order_status}
use lavish_fashion.Orders.Requests.{
  update_order_status, cancel_user_order, belongs_to, is_order_within_cancellation_window,
}
use lavish_fashion.Orders.Effects.{first_of, status_at}
use lavish_fashion.Orders.Moves.{same_status-eq, perform-other}
use lavish_fashion.Orders.Updates.{may_move, update_refused, update_gone, update-moves}

-- The requests that change a status, each of which reads the order first.
pub data Request : Type 0 where
  by_admin : ℕ → ℕ → OrderStatus → Request
  by_user : ℕ → ℕ → ℕ → Request

unfoldable pub handle : Setting → Request → World → World
unfolding update_order_status cancel_user_order
handle setting (by_admin now k status) w = (update_order_status setting now k status w).1
handle setting (by_user now user k) w = (cancel_user_order setting now user k w).1

unfoldable pub handle_all : Setting → List Request → World → World
unfolding handle
handle_all setting [] w = w
handle_all setting (r ∷ rs) w = handle_all setting rs (handle setting r w)

-- A cancellation by the user happens for an order that is placed, or it changes nothing.
pub user-cancels :
    (setting : Setting) (now user k : ℕ) (w : World)
    → ((cancel_user_order setting now user k w).1 ≡ w)
      ⊎ ((o : Order) × (find_order k w ≡ some o)
          × (o.status ≡ placed)
          × ((cancel_user_order setting now user k w).1
              ≡ (perform_order_cancellation setting now o w).1))
unfolding cancel_user_order same_status
user-cancels setting now user k w = elim (Option-cases (find_order k w)) [
  | inl missing ↦ inl (rw (missing, cancel_user_order) refl)
  | inr (o, there) ↦ elim (Bool-cases (belongs_to user o.user_id)) [
    | inr foreign ↦ inl (rw (there, cancel_user_order) (rw foreign refl))
    | inl own ↦ elim (Bool-cases (same_status o.status cancelled)) [
      | inl over ↦ inl (rw (there, cancel_user_order) (rw (own, over) refl))
      | inr going ↦ elim (Bool-cases (same_status o.status placed)) [
        | inr far ↦ inl (rw (there, cancel_user_order) (rw (own, going, far) refl))
        | inl fresh ↦ elim (Bool-cases (is_order_within_cancellation_window now o)) [
          | inr late ↦ inl (rw (there, cancel_user_order) (rw (own, going, fresh, late) refl))
          | inl early ↦ inr (
            o,
            there,
            same_status-eq o.status placed fresh,
            (rw (there, cancel_user_order) (rw (own, going, fresh, early) refl)),
          )
        ]
      ]
    ]
  ]
]

pub final_stays_put :
    (st new : OrderStatus) → is_finalized_order_status st ≡ true → may_move st new ≡ true → new ≡ st
unfolding is_finalized_order_status same_status
final_stays_put st new final may = ground arith

final_not_placed : (st : OrderStatus) → is_finalized_order_status st ≡ true → st ≢ placed
unfolding is_finalized_order_status same_status
final_not_placed st final = ground arith

pub status_at-of :
    (k : ℕ) (o : Order) (st : OrderStatus) (w : World)
    → find_order k w ≡ some o
    → status_at k w ≡ some st
    → o.status ≡ st
status_at-of k o st w there at =
    some-injective o.status st (sym (ap (λ x. first_of (standing_of x)) there) ∙ at)

pub apart_of : (j k : ℕ) → (j == k) ≡ false → j ≢ k
apart_of j k h = ground arith

module _ (setting : Setting) (k : ℕ) (st : OrderStatus)
    (final : is_finalized_order_status st ≡ true) where
  update-Final :
      (now j : ℕ) (status : OrderStatus) (w : World)
      → status_at k w ≡ some st
      → status_at k (update_order_status setting now j status w).1 ≡ some st
  update-Final now j status w at = elim (Option-cases (find_order j w)) [
    | inl missing ↦ rw (update_gone setting now j status w missing) at
    | inr (o, there) ↦ elim (Bool-cases (j == k)) [
      | inr apart ↦ (update-moves setting now j status o w there).1 k (apart_of j k apart) ∙ at
      | inl same ↦
          let e = (==_iff j k).0 same in
          let was = status_at-of j o st w there (subst (λ i. status_at i w ≡ some st) (sym e) at) in
          elim (Bool-cases (may_move o.status status)) [
            | inr may_not ↦ rw (update_refused setting now j status o w there may_not) at
            | inl may ↦
                subst (λ i. status_at i (update_order_status setting now j status w).1 ≡ some st) e
                  (((update-moves setting now j status o w there).0.0 may).1
                    ∙ ap some (
                        final_stays_put st status final
                          (subst (λ x. may_move x status ≡ true) was may)))
          ]
    ]
  ]

  cancel-Final :
      (now user j : ℕ) (w : World)
      → status_at k w ≡ some st
      → status_at k (cancel_user_order setting now user j w).1 ≡ some st
  cancel-Final now user j w at = elim (user-cancels setting now user j w) [
    | inl nothing ↦ rw nothing at
    | inr (o, there, fresh, does) ↦ elim (Bool-cases (j == k)) [
      | inr apart ↦ rw does (
          perform-other setting now o k w
            (λ e. apart_of j k apart (sym (find_by-key order_key j w.loyalty.orders o there) ∙ e))
          ∙ at)
      | inl same ↦ absurd (
          final_not_placed st final (
            sym (
              status_at-of j o st w there
                (subst (λ i. status_at i w ≡ some st) (sym ((==_iff j k).0 same)) at))
            ∙ fresh))
    ]
  ]

  -- Once an order is delivered or cancelled, it stays so over any sequence of requests by admins and
  -- users for this and other orders, each of which reads the order it is about first.
  pub final_stays :
      (rs : List Request) (w : World)
      → status_at k w ≡ some st
      → status_at k (handle_all setting rs w) ≡ some st
  unfolding handle_all handle
  final_stays [] w at = at
  final_stays (by_admin now j status ∷ rs) w at =
      final_stays rs (handle setting (by_admin now j status) w) (update-Final now j status w at)
  final_stays (by_user now user j ∷ rs) w at =
      final_stays rs (handle setting (by_user now user j) w) (cancel-Final now user j w at)
