-- ===== src/Refund/Funds.antt =====
-- The money that an order has out or can still give out, and how the database calls of
-- server/services/refundService.js move it.
use lavish_fashion.Prelude.{
  ℕ, ◌+◌, ◌<◌, ◌≡◌, refl, ap, Bool, false, Option, none, some, List, [], ◌∷◌, any, All,
  sum_by-update_by, find_by, update_by, Result, ok, err, ◌==◌, if◌then◌else◌, Bool-cases,
  Option-cases, inl, inr, arith,
}
use lavish_fashion.Refund.Errors.{Thrown, database_error}
use lavish_fashion.Refund.Store.{
  Db, Order, Refund, GatewayId, unset, gateway, manual, order_key, refund_key, find_order,
  update_order, refunds_of, same_gateway_id, breaks_index, save_refund,
}
use lavish_fashion.Refund.Service.Reserve.{give_refundable}
use lavish_fashion.Refund.Projector.{project, project_order}
use lavish_fashion.Refund.Held.{
  share, live_total, bucket_of, bucket, or_zero, refundable, ManualBelow, IsClear,
}

-- A write to orders that keeps ids and refundable amounts.
pub bucket-update :
    (f : Order → Order) (k j : ℕ) (os : List Order)
    → ((o : Order)
        → ((f o).id ≡ o.id) × ((f o).refundable_amount_in_paise ≡ o.refundable_amount_in_paise))
    → bucket_of (find_by order_key j (update_by order_key k f os))
      ≡ bucket_of (find_by order_key j os)
bucket-update f k j [] keeps = refl
bucket-update f k j (o ∷ os) keeps = ground (arith, keeps o, bucket-update f k j os keeps)

project_order_keeps :
    (now : ℕ) (rs : List Refund) (o : Order)
    → ((project_order now rs o).id ≡ o.id)
      × ((project_order now rs o).refundable_amount_in_paise ≡ o.refundable_amount_in_paise)
unfolding project_order
project_order_keeps now rs o = (refl, refl)

-- `project` writes orders only, and no refundable amount.
pub project-cases :
    (fault : Bool) (now k : ℕ) (db : Db)
    → (r : Result Thrown (Option Order)) × (os : List Order) × (project fault now k db
        ≡ (r, record db { orders = os }))
      × ((j : ℕ) → bucket_of (find_by order_key j os) ≡ bucket j db)
unfolding project
project-cases fault now k db = elim (Option-cases (find_order k db)) [
  | inl missing ↦ (ok none, db.orders, (rw (missing, project)), λ j. refl)
  | inr (o, there) ↦ elim (Bool-cases fault) [
    | inl broken ↦ (err database_error, db.orders, (rw (there, broken, project)), λ j. refl)
    | inr fine ↦
        let projected = project_order now (refunds_of k db) in
        (
          ok (some (projected o)),
          update_by order_key k projected db.orders,
          (rw (there, fine, project)),
          λ j. bucket-update projected k j db.orders (project_order_keeps now (refunds_of k db)),
        )
  ]
]

-- A document that is clear stays so with a gateway id that no other has.
pub IsClear-with :
    (doc doc' : Refund) (g : GatewayId) (rs : List Refund)
    → doc'.id ≡ doc.id
    → doc'.idempotency_key ≡ doc.idempotency_key
    → doc'.gateway_refund_id ≡ g
    → any (λ r. same_gateway_id r.gateway_refund_id g) rs ≡ false
    → IsClear doc rs
    → IsClear doc' rs
unfolding breaks_index
IsClear-with doc doc' g [] i k e new clear = refl
IsClear-with doc doc' g (r ∷ rs) i k e new clear =
    ground (arith, IsClear-with doc doc' g rs i k e, ap (same_gateway_id r.gateway_refund_id) e)

manual_other : (n : ℕ) (g : GatewayId) → ManualBelow n g → same_gateway_id g (manual n) ≡ false
unfolding same_gateway_id
manual_other n unset h = refl
manual_other n (gateway m) h = refl
manual_other n (manual m) h = ground arith

pub manual_new :
    (n : ℕ) (rs : List Refund)
    → All (λ r. (r.id < n) × ManualBelow n r.gateway_refund_id) rs
    → any (λ r. same_gateway_id r.gateway_refund_id (manual n)) rs ≡ false
manual_new n [] h = refl
manual_new n (r ∷ rs) h = rw (manual_other n r.gateway_refund_id h.0.1) (manual_new n rs h.1)

-- A write to order k that changes its refundable amount by g.
pub bucket-change :
    (f : Order → Order) (g : ℕ → ℕ) (k j : ℕ) (os : List Order)
    → ((o : Order)
        → ((f o).id ≡ o.id) × ((f o).refundable_amount_in_paise ≡ g o.refundable_amount_in_paise))
    → or_zero (bucket_of (find_by order_key j (update_by order_key k f os)))
      ≡ elim (bucket_of (find_by order_key j os)) [ none ↦ 0 | some n ↦ if k == j then g n else n ]
bucket-change f g k j [] changes = refl
bucket-change f g k j (o ∷ os) changes = ground (arith, changes o, bucket-change f g k j os changes)

-- The indexes read three fields of a document.
pub IsClear-same :
    (doc doc' : Refund) (rs : List Refund)
    → doc'.id ≡ doc.id
    → doc'.idempotency_key ≡ doc.idempotency_key
    → doc'.gateway_refund_id ≡ doc.gateway_refund_id
    → IsClear doc rs
    → IsClear doc' rs
unfolding breaks_index
IsClear-same doc doc' [] i k g clear = refl
IsClear-same doc doc' (r ∷ rs) i k g clear =
    ground (arith, IsClear-same doc doc' rs i k g, ap (same_gateway_id r.gateway_refund_id) g)

-- A save of any stored document that is clear of the others.
pub save_refund_found :
    (doc : Refund) (db : Db)
    → IsClear doc db.refunds
    → save_refund false doc db
      ≡ (ok tt, record db { refunds = update_by refund_key doc.id (λ _. doc) db.refunds })
unfolding save_refund
save_refund_found doc db clear = rw clear

pub live_total-save :
    (j : ℕ) (doc old : Refund) (rs : List Refund)
    → find_by refund_key doc.id rs ≡ some old
    → live_total j (update_by refund_key doc.id (λ _. doc) rs) + share j old
      ≡ live_total j rs + share j doc
live_total-save j doc old rs there =
    sum_by-update_by refund_key (share j) doc.id (λ _. doc) rs old there

-- Giving back an amount to an order that is there.
pub refundable-give :
    (k a j n : ℕ) (db : Db)
    → bucket k db ≡ some n
    → refundable j (update_order k (give_refundable a) db)
      ≡ refundable j db + (if k == j then a else 0)
refundable-give k a j n db there = ground (
  arith,
  bucket-change (give_refundable a) (λ m. m + a) k j db.orders (λ o. (refl, refl)),
  Option-cases (bucket j db),
)

-- With the database up, `project` does not throw.
pub project-up :
    (now k : ℕ) (db : Db)
    → (q : Option Order) × (os : List Order) × (project false now k db
        ≡ (ok q, record db { orders = os }))
      × ((j : ℕ) → bucket_of (find_by order_key j os) ≡ bucket j db)
unfolding project
project-up now k db = elim (Option-cases (find_order k db)) [
  | inl missing ↦ (none, db.orders, (rw (missing, project)), λ j. refl)
  | inr (o, there) ↦
      let projected = project_order now (refunds_of k db) in
      (
        some (projected o),
        update_by order_key k projected db.orders,
        (rw (there, project)),
        λ j. bucket-update projected k j db.orders (project_order_keeps now (refunds_of k db)),
      )
]

-- The write of a version of the document keeps it clear.
pub IsClear-update :
    (doc m : Refund) (k : ℕ) (rs : List Refund)
    → m.id ≡ doc.id
    → IsClear doc rs
    → IsClear doc (update_by refund_key k (λ _. m) rs)
unfolding breaks_index
IsClear-update doc m k [] same clear = refl
IsClear-update doc m k (r ∷ rs) same clear = ground (arith, IsClear-update doc m k rs same)
