-- ===== src/Refund/Service/Settle/Webhook.antt =====
-- What a gateway event does to a refund and to the money of its order.
use lavish_fashion.Prelude.{
  ℕ, ◌+◌, ◌<◌, ◌≡◌, refl, sym, ap, ◌∙◌, true, false, ◌&&◌, some, List, update_by, ok, ◌==◌,
  if◌then◌else◌, pos, Bool-cases, Option-cases, inl, inr, arith,
}
use lavish_fashion.Refund.State.{
  RefundState, initiated, pending, failed, known, can_move, same_state, can_transition,
}
use lavish_fashion.Refund.State.Laws.{should_update-eq-can_transition}
use lavish_fashion.Refund.Errors.{Thrown}
use lavish_fashion.Refund.Store.{
  Db, Order, Refund, LedgerEntry, unset, refund_key, find_refund, update_order, same_gateway_id,
  find_first, no_faults, Faults, audit_webhook, write_audit, adjustment_entry, from_razorpay,
}
use lavish_fashion.Refund.Ledger.Laws.{write_entry_ok, IsValid}
use lavish_fashion.Refund.Service.Reserve.{
  stamp, transition_refund_state, release_refundable_amount, give_refundable,
}
use lavish_fashion.Refund.Held.{live, bucket, refundable, held, IsClear}
use lavish_fashion.Refund.Funds.{
  IsClear-same, save_refund_found, live_total-save, refundable-give, project-up,
}
use lavish_fashion.Refund.Service.Settle.{
  RefundEntity, has_gateway_id, state_of_gateway_status, explain, reversal_row, reverse, advance,
  apply_event, process_known, process_webhook_update,
}

pub transition_refund_state_moves :
    (now : ℕ) (r : Refund) (next : RefundState)
    → can_move r.state next ≡ true
    → transition_refund_state now r next ≡ ok (stamp now next r)
unfolding transition_refund_state
transition_refund_state_moves now r next h = ground arith

-- The document that `advance` stores.
abbrev moved : ℕ → RefundEntity → RefundState → Refund → Refund
moved now entity incoming r = stamp now incoming (explain entity incoming r)

moved_fields :
    (now : ℕ) (entity : RefundEntity) (incoming : RefundState) (r : Refund)
    → ((moved now entity incoming r).id ≡ r.id)
      × ((moved now entity incoming r).order_id ≡ r.order_id)
      × ((moved now entity incoming r).amount_in_paise ≡ r.amount_in_paise)
      × ((moved now entity incoming r).idempotency_key ≡ r.idempotency_key)
      × ((moved now entity incoming r).gateway_refund_id ≡ r.gateway_refund_id)
      × ((moved now entity incoming r).state ≡ incoming)
      × ((explain entity incoming r).state ≡ r.state)
unfolding explain
moved_fields now entity incoming r = ground arith

-- What an event puts on hold without a reservation, and what it lets go without giving it back.
abbrev pub gained : RefundState → RefundState → ℕ → ℕ
gained failed pending a = a
gained _ _ a = 0

abbrev pub lost : RefundState → RefundState → ℕ → ℕ
lost initiated failed a = a
lost _ _ a = 0

-- With the database up, `reverse` gives the amount back exactly on the way from pending to failed.
abbrev given_back : RefundState → RefundState → ℕ → ℕ
given_back pending failed a = a
given_back _ _ a = 0

is_given :
    (before incoming : RefundState) (a : ℕ)
    → (same_state incoming failed && same_state before pending) ≡ true
    → given_back before incoming a ≡ a
unfolding same_state
is_given before incoming a h = ground arith

not_given :
    (before incoming : RefundState) (r : Refund) (j : ℕ) (db : Db)
    → (same_state incoming failed && same_state before pending) ≡ false
    → refundable j db
      ≡ refundable j db
        + (if r.order_id == j then given_back before incoming r.amount_in_paise else 0)
unfolding same_state
not_given before incoming r j db h = ground arith

reversal_row-IsValid :
    (r : Refund)
    → 0 < r.amount_in_paise
    → IsValid
        (some adjustment_entry)
        (reversal_row r).source
        (reversal_row r).amount_in_paise
        (reversal_row r).order_id
reversal_row-IsValid r some_money = record {
  t = adjustment_entry;
  s = from_razorpay;
  a = pos r.amount_in_paise;
  o = r.order_id;
  has_type = refl;
  has_source = refl;
  has_amount = refl;
  not_zero = λ e. ground arith;
  has_order = refl;
}

reverse-cases :
    (before incoming : RefundState) (r : Refund) (n : ℕ) (db : Db)
    → 0 < r.amount_in_paise
    → bucket r.order_id db ≡ some n
    → (os : List Order) × (l : List LedgerEntry) × (reverse no_faults before incoming r db
        ≡ (ok tt, record db { orders = os; ledger = l }))
      × ((j : ℕ)
          → refundable j (record db { orders = os })
            ≡ refundable j db
              + (if r.order_id == j then given_back before incoming r.amount_in_paise else 0))
unfolding reverse release_refundable_amount
reverse-cases before incoming r n db some_money there =
    elim (Bool-cases (same_state incoming failed && same_state before pending)) [
      | inr other ↦
          (db.orders, db.ledger, (rw (other, reverse)), λ j. not_given before incoming r j db other)
      | inl bounced ↦
          let a = r.amount_in_paise in
          let db1 = update_order r.order_id (give_refundable a) db in
          let (l, written) =
            write_entry_ok (some adjustment_entry) (reversal_row r) db1
              (reversal_row-IsValid r some_money) in
          (
            db1.orders,
            l,
            (rw (bounced, reverse) written),
            λ j.
                refundable-give r.order_id a j n db there
                ∙ ap (λ m. refundable j db + (if r.order_id == j then m else 0))
                    (sym (is_given before incoming a bounced)),
          )
    ]

can_transition-known_eq : (a b : RefundState) → can_transition (known a) (known b) ≡ can_move a b
unfolding can_transition
can_transition-known_eq a b = refl

can_transition-known :
    (a b : RefundState) → can_move a b ≡ true → can_transition (known a) (known b) ≡ true
can_transition-known a b h = can_transition-known_eq a b ∙ h

moved_money :
    (before incoming : RefundState) (a : ℕ)
    → can_move before incoming ≡ true
    → given_back before incoming a + live incoming a + lost before incoming a
      ≡ gained before incoming a + live before a
unfolding can_move
moved_money before incoming a h = ground arith

module _ (now : ℕ) (entity : RefundEntity) (incoming : RefundState) (r : Refund) (n : ℕ) (db : Db)
    (stored : find_refund r.id db ≡ some r) (clear : IsClear r db.refunds)
    (some_money : 0 < r.amount_in_paise) (there : bucket r.order_id db ≡ some n)
    (legal : can_move r.state incoming ≡ true) where
  -- The effect of `advance` with the database up.
  advance-held :
      (db' : Db) × (advance no_faults now entity incoming r db
        ≡ (ok (moved now entity incoming r), db'))
      × ((j : ℕ)
          → held j db' + (if r.order_id == j then lost r.state incoming r.amount_in_paise else 0)
            ≡ held j db
              + (if r.order_id == j then gained r.state incoming r.amount_in_paise else 0))
  unfolding advance
  advance-held =
      let m = moved now entity incoming r in
      let (i, o, a, k, g, s, before) = moved_fields now entity incoming r in
      let saved = save_refund_found m db (IsClear-same r m db.refunds i k g clear) in
      let db1 = record db { refunds = update_by refund_key m.id (λ _. m) db.refunds } in
      let (os, l, reversed, funds) =
        reverse-cases r.state incoming m n db1 (rw a some_money) (rw o there) in
      let db2 = record db1 { orders = os; ledger = l } in
      let (q, os', projected, keeps) = project-up now m.order_id db2 in
      let db3 = record db2 { orders = os' } in
      let moves =
        transition_refund_state_moves now (explain entity incoming r) incoming (rw before legal) in
      (
        (write_audit {E = Thrown} (audit_webhook incoming) m "system" db3).1,
        (rw (moves, saved, reversed, projected, advance)),
        λ j.
            unfold write_audit in
            ground (
              arith,
              keeps j,
              funds j,
              live_total-save j m r db.refunds (rw i stored),
              moved_money r.state incoming r.amount_in_paise legal,
            ),
      )

  -- A gateway event with an id, for the refund of that id (stored, clear of the unique indexes, of
  -- an amount that is not zero and an order that is there) and with a state that the state machine
  -- lets it move to, is applied when the database is up: the refund it returns is in that state, and
  -- what its order has left or held stays, but for two moves: from `failed` to `pending` it grows by
  -- the amount, and from `initiated` to `failed` it falls by it. No other order's money changes.
  pub process_webhook_update-held :
      same_gateway_id entity.id unset ≡ false
      → find_first (has_gateway_id entity.id) db.refunds ≡ some r
      → state_of_gateway_status entity.status ≡ some incoming
      → (r' : Refund) × (db' : Db) × (process_webhook_update no_faults now (some entity) db
          ≡ (ok (some r'), db'))
        × (r'.state ≡ incoming)
        × ((j : ℕ)
            → held j db' + (if r.order_id == j then lost r.state incoming r.amount_in_paise else 0)
              ≡ held j db
                + (if r.order_id == j then gained r.state incoming r.amount_in_paise else 0))
  unfolding process_webhook_update process_known apply_event
  process_webhook_update-held has_id found status =
      let (db', advanced, funds) = advance-held in
      let should =
        should_update-eq-can_transition (known r.state) (known incoming)
        ∙ can_transition-known r.state incoming legal in
      (
        moved now entity incoming r,
        db',
        (rw (has_id, process_webhook_update)
            (rw (found, process_known) (rw (status, should, advanced, apply_event)))),
        (moved_fields now entity incoming r).5,
        funds,
      )

-- An event changes nothing at all if its id is unknown, its status is not mapped, or the state
-- machine does not let the stored refund move to its state, in particular if the refund is settled
-- or given up.
pub process_webhook_update_ignored :
    (faults : Faults) (now : ℕ) (entity : RefundEntity) (db : Db)
    → same_gateway_id entity.id unset ≡ false
    → ((r : Refund)
        → find_first (has_gateway_id entity.id) db.refunds ≡ some r
        → (s : RefundState) → state_of_gateway_status entity.status ≡ some s
        → can_move r.state s ≡ false)
    → process_webhook_update faults now (some entity) db
      ≡ (ok (find_first (has_gateway_id entity.id) db.refunds), db)
unfolding process_webhook_update process_known apply_event
process_webhook_update_ignored faults now entity db has_id stays =
    elim (Option-cases (find_first (has_gateway_id entity.id) db.refunds)) [
      | inl new ↦ rw (has_id, process_webhook_update) (rw (new, process_known))
      | inr (r, found) ↦ elim (Option-cases (state_of_gateway_status entity.status)) [
        | inl unmapped ↦
            rw (has_id, process_webhook_update)
              (rw (found, process_known) (rw (unmapped, apply_event)))
        | inr (s, mapped) ↦
            let should =
              should_update-eq-can_transition (known r.state) (known s)
              ∙ can_transition-known_eq r.state s
              ∙ stays r found s mapped in
            rw (has_id, process_webhook_update)
              (rw (found, process_known) (rw (mapped, should, apply_event)))
      ]
    ]
