-- ===== src/Refund/Service/Initiate/Conserve.antt =====
-- `initiateRefund` and the money of an order: what is reserved is held by the new refund, or it
-- goes back.
use lavish_fashion.Prelude.{
  ℕ, ◌+◌, ◌-◌, ◌≤◌, ◌≡◌, refl, ap, ◌∙◌, false, some, find_by-update_by_self, ok, err, ◌==◌, leb,
  leb→le, if◌then◌else◌, Bool-cases, Option-cases, Result-cases, inl, inr, arith, ◌⊎◌,
}
use lavish_fashion.Refund.Errors.{
  Thrown, typed, refund_not_found_error, insufficient_refundable_amount_error,
}
use lavish_fashion.Refund.Store.{
  Db, Order, Faults, Channel, order_key, find_order, update_order, find_first,
}
use lavish_fashion.Refund.Router.{Gateway, choose_channel}
use lavish_fashion.Refund.Service.Reserve.{
  needs_seed, lazy_seed_refundable_paise, reserve_guarded, reserve_refundable_amount,
  take_refundable,
}
use lavish_fashion.Refund.Held.{
  live_total, bucket, bucket_of, refundable, held, IsFresh, find_fresh,
}
use lavish_fashion.Refund.Funds.{bucket-change}
use lavish_fashion.Refund.Service.Initiate.{
  InitiateInput, Initiate, validate, attempt, run_refund, fresh_refund, start_refund,
  initiate_refund, has_key,
}
use lavish_fashion.Refund.Service.Initiate.Compensate.{settle_attempt-held}
use lavish_fashion.Refund.Service.Initiate.Shape.{NewIds, attempt-Leaves}

-- A reservation is refused and changes nothing, or it takes the amount from the order's bucket.
reserve_guarded-cases :
    (k a : ℕ) (db : Db)
    → ((e : Thrown) × (reserve_guarded k a db ≡ (err e, db)))
      ⊎ ((o : Order) × (find_order k db ≡ some o)
          × (a ≤ o.refundable_amount_in_paise)
          × (reserve_guarded k a db
              ≡ (ok (take_refundable a o), update_order k (take_refundable a) db)))
unfolding reserve_guarded
reserve_guarded-cases k a db = elim (Option-cases (find_order k db)) [
  | inl missing ↦ inl (typed refund_not_found_error, rw (missing, reserve_guarded))
  | inr (o, there) ↦ elim (Bool-cases (leb a o.refundable_amount_in_paise)) [
    | inl enough ↦ inr (
      o,
      there,
      leb→le a o.refundable_amount_in_paise enough,
      rw (there, enough, reserve_guarded),
    )
    | inr short ↦
        inl (typed insufficient_refundable_amount_error, rw (there, short, reserve_guarded))
  ]
]

refundable-take :
    (k a j : ℕ) (o : Order) (db : Db)
    → find_order k db ≡ some o
    → a ≤ o.refundable_amount_in_paise
    → refundable j (update_order k (take_refundable a) db) + (if k == j then a else 0)
      ≡ refundable j db
refundable-take k a j o db there enough = ground (
  arith,
  bucket-change (take_refundable a) (λ m. m - a) k j db.orders (λ x. (refl, refl)),
  Option-cases (bucket j db),
  ap bucket_of there,
)

bucket-take :
    (k a : ℕ) (o : Order) (db : Db)
    → find_order k db ≡ some o
    → bucket k (update_order k (take_refundable a) db) ≡ some (o.refundable_amount_in_paise - a)
bucket-take k a o db there =
    rw (find_by-update_by_self order_key k (take_refundable a) db.orders o refl there)

-- The order that a call asks for is not one that the lazy seeding would fill.
abbrev pub NoSeed : ℕ → Db → Type 0
NoSeed k db = (o : Order) → find_order k db ≡ some o → needs_seed o ≡ false

lazy_seed_idle : (k : ℕ) (db : Db) → NoSeed k db → lazy_seed_refundable_paise k db ≡ db
unfolding lazy_seed_refundable_paise
lazy_seed_idle k db idle = elim (Option-cases (find_order k db)) [
  | inl missing ↦ rw (missing, lazy_seed_refundable_paise)
  | inr (o, there) ↦ rw (there, lazy_seed_refundable_paise) (rw (idle o there))
]

validate-order :
    (input : InitiateInput) (dto : Initiate)
    → validate input ≡ ok dto
    → input.order_id ≡ some dto.order_id
unfolding validate
validate-order input dto h = ground arith

module _ (faults : Faults) (g : Gateway) (now : ℕ) (up : faults.release ≡ false)
    (saves : faults.mark_failed ≡ false) (j : ℕ) where
  pub run_refund-held :
      (channel : Channel) (dto : Initiate) (db seeded : Db)
      → NewIds g seeded.refunds
      → IsFresh seeded
      → lazy_seed_refundable_paise dto.order_id db ≡ seeded
      → held j (run_refund faults g now channel dto db).1 ≡ held j seeded
  unfolding run_refund reserve_refundable_amount
  run_refund-held channel dto db seeded unused fresh seeds =
      elim (reserve_guarded-cases dto.order_id dto.amount seeded) [
        | inl (e, refused) ↦ rw (seeds, refused, run_refund, reserve_refundable_amount)
        | inr (o, there, enough, taken) ↦
            let base = update_order dto.order_id (take_refundable dto.amount) seeded in
            let order = take_refundable dto.amount o in
            rw (seeds, taken, run_refund, reserve_refundable_amount)
              (settle_attempt-held faults now dto order seeded.next_id seeded.refunds up saves
                  (find_fresh seeded.next_id seeded.refunds fresh) j
                  (o.refundable_amount_in_paise - dto.amount) base
                  (attempt faults g now channel dto order base).1
                  (attempt faults g now channel dto order base).0
                  (bucket-take dto.order_id dto.amount o seeded there)
                  (attempt-Leaves faults g now channel dto order base unused fresh)
                ∙ ap (λ m. m + live_total j seeded.refunds)
                    (refundable-take dto.order_id dto.amount j o seeded there enough))
      ]

  fresh_refund-held :
      (dto : Initiate) (db : Db)
      → NewIds g db.refunds
      → IsFresh db
      → NoSeed dto.order_id db
      → held j (fresh_refund faults g now dto db).1 ≡ held j db
  unfolding fresh_refund
  fresh_refund-held dto db unused fresh idle = elim (Option-cases (find_order dto.order_id db)) [
    | inl missing ↦ rw (missing, fresh_refund)
    | inr (o, there) ↦ elim (Bool-cases o.payment) [
      | inr unpaid ↦ rw (there, fresh_refund) (rw unpaid)
      | inl paid ↦ elim (Result-cases (choose_channel (some o))) [
        | inl (e, none_fits) ↦ rw (there, fresh_refund) (simp (paid, none_fits))
        | inr (channel, chosen) ↦
            rw (there, fresh_refund)
              (simp (paid, chosen)
                (run_refund-held channel dto db db unused fresh
                  (lazy_seed_idle dto.order_id db idle)))
      ]
    ]
  ]

  start_refund-held :
      (dto : Initiate) (db : Db)
      → NewIds g db.refunds
      → IsFresh db
      → NoSeed dto.order_id db
      → held j (start_refund faults g now dto db).1 ≡ held j db
  unfolding start_refund
  start_refund-held dto db unused fresh idle =
      elim (Option-cases (find_first (has_key dto.idempotency_key) db.refunds)) [
        | inr (old, known) ↦ rw (known, start_refund)
        | inl unknown ↦ rw (unknown, start_refund) (fresh_refund-held dto db unused fresh idle)
      ]

  -- Whatever the input, and however the call ends, each order has as much left to refund or held by
  -- live refunds after `initiate_refund` as before: if the compensating writes of the `catch` do not
  -- fail, the gateway gives new ids, refund ids are new, and the order is not one that the lazy
  -- seeding fills.
  pub initiate_refund-held :
      (input : InitiateInput) (db : Db)
      → NewIds g db.refunds
      → IsFresh db
      → ((k : ℕ) → input.order_id ≡ some k → NoSeed k db)
      → held j (initiate_refund faults g now input db).1 ≡ held j db
  unfolding initiate_refund
  initiate_refund-held input db unused fresh idle = elim (Result-cases (validate input)) [
    | inl (e, invalid) ↦ rw (invalid, initiate_refund)
    | inr (dto, valid) ↦
        rw (valid, initiate_refund)
          (start_refund-held dto db unused fresh
            (idle dto.order_id (validate-order input dto valid)))
  ]
