-- ===== src/Refund/Projector/Laws.antt =====
-- The projection of server/services/refundProjector.js against the refunds it is computed from.
use lavish_fashion.Prelude.{
  ℕ, ◌+◌, ◌≤◌, ◌<◌, ◌≡◌, ◌↔◌, refl, sym, ap, ◌∙◌, true, false, none, some, List, [], ◌∷◌, map, any,
  keep_if, sum_by, find_by-update_by_self, update_by_twice, ok, if◌then◌else◌, ◌==◌, arith,
  Bool-cases, Option-cases, inl, inr,
}
use mathlib.Core.Path.{ap₂}
use lavish_fashion.Refund.Store.{
  Db, Order, Refund, Item, RefundStatus, no_refund, refund_pending, refund_partial,
  refund_processed, refund_failed, find_order, update_order, order_key, refunds_of,
}
use lavish_fashion.Refund.Held.{live, live_total, held, bucket_of}
use lavish_fashion.Refund.Projector.{
  is_in_flight, has_failed, processed_paise, compute_order_totals, order_amount_of, project_item,
  project_order, project,
}

item_settles : (s : RefundStatus) (i : Item) → project_item s (project_item s i) ≡ project_item s i
unfolding project_item
item_settles no_refund i = refl
item_settles refund_pending i = refl
item_settles refund_partial i = refl
item_settles refund_processed i = refl
item_settles refund_failed i = refl

items_settle :
    (s : RefundStatus) (is : List Item)
    → map (project_item s) (map (project_item s) is) ≡ map (project_item s) is
items_settle s [] = refl
items_settle s (i ∷ is) = rw (item_settles s i, items_settle s is)

order_settles :
    (now : ℕ) (rs : List Refund) (o : Order)
    → project_order now rs (project_order now rs o) ≡ project_order now rs o
unfolding project_order
order_settles now rs o =
    ap (λ is. record (project_order now rs o) { items = is })
      (items_settle (compute_order_totals (order_amount_of o) rs).1 o.items)

order_keeps_key : (now : ℕ) (rs : List Refund) (o : Order) → (project_order now rs o).id ≡ o.id
unfolding project_order
order_keeps_key now rs o = refl

projected_fields :
    (now : ℕ) (rs : List Refund) (o : Order)
    → ((project_order now rs o).refundable_amount_in_paise ≡ o.refundable_amount_in_paise)
      × ((project_order now rs o).refunded_amount_in_paise ≡ processed_paise rs)
unfolding project_order
projected_fields now rs o = (refl, refl)

project_found :
    (now k : ℕ) (o : Order) (db : Db)
    → find_order k db ≡ some o
    → let f = project_order now (refunds_of k db) in
      project false now k db ≡ (ok (some (f o)), update_order k f db)
unfolding project
project_found now k o db there = rw (there, project)

project_missing :
    (now k : ℕ) (db : Db) → find_order k db ≡ none → project false now k db ≡ (ok none, db)
unfolding project
project_missing now k db missing = rw (missing, project)

-- Projecting an order again changes nothing: the second run finds and writes what the first wrote.
pub project-project :
    (now k : ℕ) (db : Db)
    → project false now k (project false now k db).1
      ≡ (ok (find_order k (project false now k db).1), (project false now k db).1)
project-project now k db = elim (Option-cases (find_order k db)) [
  | inl missing ↦ let e = project_missing now k db missing in rw (e, e, missing)
  | inr (o, there) ↦
      let f = project_order now (refunds_of k db) in
      let db1 = update_order k f db in
      let found =
        find_by-update_by_self order_key k f db.orders o (order_keeps_key now (refunds_of k db) o)
          there in
      let twice =
        update_by_twice order_key k f db.orders (order_keeps_key now (refunds_of k db))
          (order_settles now (refunds_of k db)) in
      rw (project_found now k o db there) (
        project_found now k (f o) db1 found
        ∙ ap₂ (λ (p : Order) (os : List Order). (ok (some p), record db { orders = os }))
            (order_settles now (refunds_of k db) o) twice
        ∙ ap (λ x. (ok x, db1)) (sym found))
]

-- The money of a refund that is on its way and not settled.
abbrev pub in_flight : Refund → ℕ
in_flight r = if is_in_flight r then r.amount_in_paise else 0

one_more :
    (r : Refund) (rs : List Refund)
    → processed_paise (r ∷ rs) + sum_by in_flight (r ∷ rs)
      ≡ live r.state r.amount_in_paise + (processed_paise rs + sum_by in_flight rs)
unfolding processed_paise
one_more r rs = ground arith

split_live :
    (k : ℕ) (rs : List Refund)
    → processed_paise (keep_if (λ r. r.order_id == k) rs)
        + sum_by in_flight (keep_if (λ r. r.order_id == k) rs)
      ≡ live_total k rs
unfolding processed_paise
split_live k [] = refl
split_live k (r ∷ rs) = elim (Bool-cases (r.order_id == k)) [
  | inl own ↦ rw own (
      one_more r (keep_if (λ x. x.order_id == k) rs)
      ∙ ap (λ m. live r.state r.amount_in_paise + m) (split_live k rs))
  | inr other ↦ rw other (split_live k rs ∙ omega arith)
]

-- After a projection, what an order has left to refund, what is refunded by its own field, and what
-- is on its way together are what it has left or held.
pub project-held :
    (now k : ℕ) (o : Order) (db : Db)
    → find_order k db ≡ some o
    → (o' : Order) × ((project false now k db).0 ≡ ok (some o'))
      × (find_order k (project false now k db).1 ≡ some o')
      × (o'.refundable_amount_in_paise
            + o'.refunded_amount_in_paise
            + sum_by in_flight (refunds_of k db)
          ≡ held k db)
project-held now k o db there =
    let f = project_order now (refunds_of k db) in
    let (kept, paid) = projected_fields now (refunds_of k db) o in
    (
      f o,
      (rw (project_found now k o db there)),
      rw (project_found now k o db there) (
          find_by-update_by_self order_key k f db.orders o (order_keeps_key now (refunds_of k db) o)
            there),
      ground (arith, kept, paid, ap bucket_of there, split_live k db.refunds),
    )

-- The status of an order says exactly how much of its amount is refunded, and, while nothing is,
-- whether a refund is on its way or has failed.
pub status_of_iff :
    (order_amount : ℕ) (rs : List Refund)
    → let paid = processed_paise rs in
      let status = (compute_order_totals order_amount rs).1 in
      ((status ≡ refund_processed) ↔ ((0 < paid) × (order_amount ≤ paid)))
      × ((status ≡ refund_partial) ↔ ((0 < paid) × (paid < order_amount)))
      × ((status ≡ refund_pending) ↔ ((paid ≡ 0) × (any is_in_flight rs ≡ true)))
      × ((status ≡ refund_failed)
          ↔ ((paid ≡ 0) × (any is_in_flight rs ≡ false) × (any has_failed rs ≡ true)))
      × ((status ≡ no_refund)
          ↔ ((paid ≡ 0) × (any is_in_flight rs ≡ false) × (any has_failed rs ≡ false)))
unfolding compute_order_totals
status_of_iff order_amount rs = ground arith
