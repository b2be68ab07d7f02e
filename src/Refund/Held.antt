-- ===== src/Refund/Held.antt =====
-- The money that an order has left or that live refunds hold, and the database calls on refunds.
use lavish_fashion.Prelude.{
  ℕ, ◌+◌, ◌<◌, ◌≡◌, refl, ap, Bool, true, false, Option, none, some, List, [], ◌∷◌, ◌++◌, any, All,
  sum_by, find_by, update_by, update_by-append_last, any-append, ◌∙◌, ◌⊎◌, ok, err, ◌==◌,
  if◌then◌else◌, Bool-cases, inl, inr, arith,
}
use lavish_fashion.Refund.State.{
  RefundState, initiated, pending, processed, failed, permanently_failed,
}
use lavish_fashion.Refund.Errors.{Thrown, duplicate_key, database_error}
use lavish_fashion.Refund.Store.{
  Db, Order, Refund, GatewayId, manual, refund_key, find_order, breaks_index, create_refund,
  save_refund,
}

-- A refund that is on its way or paid; a failed one holds no money.
abbrev pub live : RefundState → ℕ → ℕ
live initiated a = a
live pending a = a
live processed a = a
live failed a = 0
live permanently_failed a = 0

-- What a refund holds of order k.
abbrev pub share : ℕ → Refund → ℕ
share k r = if r.order_id == k then live r.state r.amount_in_paise else 0

abbrev pub live_total : ℕ → List Refund → ℕ
live_total k = sum_by (share k)

abbrev pub bucket_of : Option Order → Option ℕ
bucket_of none = none
bucket_of (some o) = some o.refundable_amount_in_paise

-- The refundable amount of order k, if there is one.
abbrev pub bucket : ℕ → Db → Option ℕ
bucket k db = bucket_of (find_order k db)

abbrev pub or_zero : Option ℕ → ℕ
or_zero none = 0
or_zero (some n) = n

abbrev pub refundable : ℕ → Db → ℕ
refundable k db = or_zero (bucket k db)

-- What is left to refund, and what live refunds hold.
abbrev pub held : ℕ → Db → ℕ
held k db = refundable k db + live_total k db.refunds

-- Ids of refunds are given once, so `next_id` is new, and so is the manual gateway id made of it.
abbrev pub ManualBelow : ℕ → GatewayId → Type 0
ManualBelow n (manual m) = m < n
ManualBelow n _ = Unit

abbrev pub IsFresh : Db → Type 0
IsFresh db = All (λ r. (r.id < db.next_id) × ManualBelow db.next_id r.gateway_refund_id) db.refunds

pub find_fresh :
    (n : ℕ) (rs : List Refund)
    → All (λ r. (r.id < n) × ManualBelow n r.gateway_refund_id) rs
    → find_by refund_key n rs ≡ none
find_fresh n [] h = refl
find_fresh n (r ∷ rs) h = ground (arith, find_fresh n rs h.1)

-- No stored refund but the document itself has its key or its gateway id.
abbrev pub IsClear : Refund → List Refund → Type 0
IsClear doc rs = any (breaks_index doc) rs ≡ false

pub create_refund-cases :
    (fault : Bool) (doc : Refund) (db : Db)
    → ((e : Thrown) × (create_refund fault doc db ≡ (err e, db)))
      ⊎ ((create_refund fault doc db
            ≡ (ok tt, record db { refunds = db.refunds ++ doc ∷ []; next_id = db.next_id + 1 }))
          × IsClear doc db.refunds)
unfolding create_refund
create_refund-cases true doc db = inl (database_error, refl)
create_refund-cases false doc db = elim (Bool-cases (any (breaks_index doc) db.refunds)) [
  | inl dup ↦ inl (duplicate_key, rw dup)
  | inr clear ↦ inr ((rw clear), clear)
]

-- A save of the document that came last.
pub save_refund-cases :
    (fault : Bool) (doc : Refund) (rs : List Refund) (old : Refund) (db : Db)
    → db.refunds ≡ rs ++ old ∷ []
    → find_by refund_key doc.id rs ≡ none
    → old.id ≡ doc.id
    → ((e : Thrown) × (save_refund fault doc db ≡ (err e, db)))
      ⊎ (save_refund fault doc db ≡ (ok tt, record db { refunds = rs ++ doc ∷ [] }))
unfolding save_refund
save_refund-cases true doc rs old db shape new same = inl (database_error, refl)
save_refund-cases false doc rs old db shape new same =
    elim (Bool-cases (any (breaks_index doc) db.refunds)) [
      | inl dup ↦ inl (duplicate_key, rw dup)
      | inr clear ↦ inr (
          rw clear (
            ap (λ l. (ok tt, record db { refunds = l }))
              (ap (update_by refund_key doc.id (λ _. doc)) shape
                ∙ update_by-append_last refund_key doc.id (λ _. doc) rs old new same)))
    ]

-- It is not refused for a duplicate where the document is clear of the others.
pub save_refund-clear :
    (doc : Refund) (rs : List Refund) (old : Refund) (db : Db)
    → db.refunds ≡ rs ++ old ∷ []
    → find_by refund_key doc.id rs ≡ none
    → old.id ≡ doc.id
    → IsClear doc rs
    → save_refund false doc db ≡ (ok tt, record db { refunds = rs ++ doc ∷ [] })
unfolding save_refund breaks_index
save_refund-clear doc rs old db shape new same clear = ground (
  arith,
  ap (any (breaks_index doc)) shape,
  ap (update_by refund_key doc.id (λ _. doc)) shape,
  any-append (breaks_index doc) rs (old ∷ []),
  update_by-append_last refund_key doc.id (λ _. doc) rs old new same,
)
