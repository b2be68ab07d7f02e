-- ===== src/Refund/Service/Initiate/Compensate.antt =====
-- What the `catch` of `initiateRefund` leaves behind.
use lavish_fashion.Prelude.{
  ℕ, ◌+◌, ◌≡◌, sym, ap, ◌∙◌, true, false, Option, none, some, List, [], ◌∷◌, ◌++◌, sum_by-append,
  find_by, Result, ok, ◌==◌, if◌then◌else◌, arith,
}
use lavish_fashion.Refund.State.{failed, can_move}
use lavish_fashion.Refund.Errors.{Thrown}
use lavish_fashion.Refund.Store.{
  Db, Order, Refund, Faults, refund_key, update_order, save_refund, write_audit,
}
use lavish_fashion.Refund.Service.Reserve.{give_refundable, release_refundable_amount}
use lavish_fashion.Refund.Held.{
  share, live_total, bucket, refundable, held, IsClear, save_refund-clear,
}
use lavish_fashion.Refund.Funds.{IsClear-same, refundable-give}
use lavish_fashion.Refund.Service.Initiate.{
  Initiate, mark_failed, compensate_doc, compensate, settle_attempt,
}
use lavish_fashion.Refund.Service.Initiate.Shape.{IsOf, stopped, crashed, done, Leaves}

-- A document of this call holds the amount for its order, and for no other.
share_of :
    (dto : Initiate) (id j : ℕ) (doc : Refund)
    → IsOf dto id doc
    → share j doc ≡ (if dto.order_id == j then dto.amount else 0)
share_of dto id j doc d = ground arith

mark_failed-share :
    (now j : ℕ) (e : Thrown) (doc : Refund)
    → can_move doc.state failed ≡ true
    → share j (mark_failed now e doc) ≡ 0
unfolding mark_failed
mark_failed-share now j e doc h = ground arith

mark_failed-fields :
    (now : ℕ) (e : Thrown) (doc : Refund)
    → ((mark_failed now e doc).id ≡ doc.id)
      × ((mark_failed now e doc).idempotency_key ≡ doc.idempotency_key)
      × ((mark_failed now e doc).gateway_refund_id ≡ doc.gateway_refund_id)
unfolding mark_failed
mark_failed-fields now e doc = ground arith

module _ (faults : Faults) (now : ℕ) (dto : Initiate) (order : Order) (id : ℕ) (rs : List Refund)
    (up : faults.release ≡ false) (saves : faults.mark_failed ≡ false)
    (new : find_by refund_key id rs ≡ none) where
  -- What order j has once the amount of the call is put back.
  abbrev pub whole : ℕ → Db → ℕ
  whole j db = refundable j db + (if dto.order_id == j then dto.amount else 0)

  released :
      (db : Db)
      → release_refundable_amount faults.release dto.order_id dto.amount db
        ≡ (ok tt, update_order dto.order_id (give_refundable dto.amount) db)
  unfolding release_refundable_amount
  released db = ap (λ b. release_refundable_amount b dto.order_id dto.amount db) up

  marked_saved :
      (e : Thrown) (doc stored : Refund) (db : Db)
      → db.refunds ≡ rs ++ stored ∷ []
      → doc.id ≡ id
      → stored.id ≡ id
      → IsClear doc rs
      → save_refund faults.mark_failed (mark_failed now e doc) db
        ≡ (ok tt, record db { refunds = rs ++ mark_failed now e doc ∷ [] })
  marked_saved e doc stored db shape own old clear =
      let (i, k, g) = mark_failed-fields now e doc in
      let marked = mark_failed now e doc in
      ap (λ b. save_refund b marked db) saves
      ∙ save_refund-clear marked rs stored db shape (rw (i, own) new) (old ∙ sym (i ∙ own))
          (IsClear-same doc marked rs i k g clear)

  pub settle_attempt-held :
      (j n : ℕ) (base db : Db) (r : Result (Thrown × Option Refund) Refund)
      → bucket dto.order_id base ≡ some n
      → Leaves dto id rs base (r, db)
      → held j (settle_attempt faults now dto order r db).1 ≡ whole j base + live_total j rs
  unfolding settle_attempt compensate
  settle_attempt-held j n base db r there (done doc e shape d, keeps) =
      rw (e, settle_attempt)
        (ground (
          arith,
          keeps j,
          ap (live_total j) shape,
          sum_by-append (share j) rs (doc ∷ []),
          share_of dto id j doc d,
        ))
  settle_attempt-held j n base db r there (stopped err' e shape, keeps) =
      rw (e, settle_attempt, released db, compensate, compensate_doc)
        (ground (
          arith,
          keeps j,
          refundable-give dto.order_id dto.amount j n db (keeps dto.order_id ∙ there),
          ap (live_total j) shape,
        ))
  settle_attempt-held j n base db r there (crashed err' doc stored e shape d s clear, keeps) =
      let db1 = update_order dto.order_id (give_refundable dto.amount) db in
      rw
        (
          e,
          settle_attempt,
          released db,
          marked_saved err' doc stored db1 shape d.same_id s.same_id clear,
          compensate,
          compensate_doc,
          write_audit,
        )
        (ground (
          arith,
          keeps j,
          refundable-give dto.order_id dto.amount j n db (keeps dto.order_id ∙ there),
          sum_by-append (share j) rs (mark_failed now err' doc ∷ []),
          mark_failed-share now j err' doc d.may_fail,
        ))
