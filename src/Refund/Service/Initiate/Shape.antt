-- ===== src/Refund/Service/Initiate/Shape.antt =====
-- What the `try` of `initiateRefund` leaves behind, on every way through it.
use lavish_fashion.Prelude.{
  ℕ, ◌+◌, ◌≡◌, refl, sym, ap, Bool, true, false, Option, none, some, List, [], ◌∷◌, ◌++◌, any,
  find_by, Result, ok, err, Bool-cases, Result-cases, inl, inr, arith, ◌∙◌, ◌⊎◌,
}
use lavish_fashion.Refund.State.{initiated, pending, failed, can_move}
use lavish_fashion.Refund.Errors.{Thrown}
use lavish_fashion.Refund.Store.{
  Db, Order, Refund, Faults, Channel, GatewayId, gateway, LedgerEntry, refund_entry, refund_key,
  same_gateway_id, write_audit,
}
use lavish_fashion.Refund.Router.{Gateway, Charge, response, StrategyResult, first_key}
use lavish_fashion.Refund.Router.Laws.{Given, by_gateway, by_hand, execute-cases}
use lavish_fashion.Refund.Ledger.Laws.{write_entry-cases}
use lavish_fashion.Refund.Service.Reserve.{transition_refund_state}
use lavish_fashion.Refund.Held.{
  live, IsClear, IsFresh, find_fresh, bucket, create_refund-cases, save_refund-cases,
}
use lavish_fashion.Refund.Funds.{project-cases, manual_new, IsClear-with}
use lavish_fashion.Refund.Service.Initiate.{
  Initiate, build_refund_doc, submit, debit, debit_row, finish_attempt, submit_attempt, attempt,
}

-- A document of this call: it is new, it asks for what the input asks, it holds that amount, and
-- it may still fail.
pub record IsOf (dto : Initiate) (id : ℕ) (doc : Refund) : Type 0 where
  pub same_id : doc.id ≡ id
  pub same_order : doc.order_id ≡ dto.order_id
  pub same_amount : doc.amount_in_paise ≡ dto.amount
  pub holds : live doc.state doc.amount_in_paise ≡ dto.amount
  pub may_fail : can_move doc.state failed ≡ true

pub data Shape (dto : Initiate) (id : ℕ) (rs : List Refund)
    (r : Result (Thrown × Option Refund) Refund) (rs' : List Refund) : Type 0 where
  stopped : (e : Thrown) → r ≡ err (e, none) → rs' ≡ rs → Shape dto id rs r rs'
  crashed :
      (e : Thrown) (doc stored : Refund)
      → r ≡ err (e, some doc)
      → rs' ≡ rs ++ stored ∷ []
      → IsOf dto id doc
      → IsOf dto id stored
      → IsClear doc rs
      → Shape dto id rs r rs'
  done :
      (doc : Refund) → r ≡ ok doc → rs' ≡ rs ++ doc ∷ [] → IsOf dto id doc → Shape dto id rs r rs'

-- The result, the refunds, and the refundable amounts of all orders.
abbrev pub Leaves :
    Initiate → ℕ → List Refund → Db → Result (Thrown × Option Refund) Refund × Db → Type 0
Leaves dto id rs db (r, db') =
    Shape dto id rs r db'.refunds × ((j : ℕ) → bucket j db' ≡ bucket j db)

debit-cases :
    (fault : Bool) (s : StrategyResult) (doc : Refund) (db : Db)
    → (r : Result Thrown (Unit {0})) × (l : List LedgerEntry) × (debit fault s doc db
        ≡ (r, record db { ledger = l }))
unfolding debit
debit-cases fault s doc db = elim (Bool-cases s.skip_pending_transition) [
  | inl skip ↦ (ok tt, db.ledger, rw skip)
  | inr post ↦
      let (r, l, written) = write_entry-cases fault (some refund_entry) (debit_row doc) db in
      (r, l, rw (post, written))
]

-- From a stored document of this call to the end of the `try`.
finish_attempt-Leaves :
    (faults : Faults) (now id : ℕ) (dto : Initiate) (s : StrategyResult) (doc old : Refund)
    (rs : List Refund) (db : Db)
    → db.refunds ≡ rs ++ old ∷ []
    → find_by refund_key id rs ≡ none
    → IsOf dto id doc
    → IsOf dto id old
    → IsClear doc rs
    → Leaves dto id rs db (finish_attempt faults now dto s doc db)
unfolding finish_attempt
finish_attempt-Leaves faults now id dto s doc old rs db shape new d o clear =
    elim (save_refund-cases faults.save doc rs old db shape (rw d.same_id new)
      (o.same_id ∙ sym d.same_id)) [
        | inl (e, refused) ↦
            rw (refused, finish_attempt) (crashed e doc old refl shape d o clear, λ j. refl)
        | inr saved ↦
            let db1 = record db { refunds = rs ++ doc ∷ [] } in
            let (r, l, posted) = debit-cases faults.ledger s doc db1 in
            let db2 = record db1 { ledger = l } in
            let (p, os, projected, keeps) = project-cases faults.project now dto.order_id db2 in
            let db3 = record db2 { orders = os } in
            elim (Result-cases r) [
              | inl (e, threw) ↦
                  rw (saved, posted ∙ ap (λ x. (x, db2)) threw, finish_attempt)
                    (crashed e doc doc refl refl d d clear, λ j. refl)
              | inr (_, wrote) ↦ elim (Result-cases p) [
                | inl (e, threw) ↦
                    rw
                      (
                        saved,
                        posted ∙ ap (λ x. (x, db2)) wrote,
                        projected ∙ ap (λ x. (x, db3)) threw,
                        finish_attempt,
                      )
                      (crashed e doc doc refl refl d d clear, keeps)
                | inr (q, fine) ↦
                    rw
                      (
                        saved,
                        posted ∙ ap (λ x. (x, db2)) wrote,
                        projected ∙ ap (λ x. (x, db3)) fine,
                        finish_attempt,
                        write_audit,
                      )
                      (done doc refl refl d, keeps)
              ]
            ]
      ]

-- The gateway gives each refund an id of its own: none that a stored refund already has.
abbrev pub NewIds : Gateway → List Refund → Type 0
NewIds g rs =
    (c : Charge) (n : ℕ)
    → g.call c ≡ response (some n)
    → any (λ r. same_gateway_id r.gateway_refund_id (gateway n)) rs ≡ false

Given-new :
    (g : Gateway) (db : Db) (doc : Refund) (id : GatewayId)
    → NewIds g db.refunds
    → IsFresh db
    → doc.id ≡ db.next_id
    → Given g doc id
    → any (λ r. same_gateway_id r.gateway_refund_id id) db.refunds ≡ false
Given-new g db doc id unused fresh same (by_gateway c n reply e) = rw e (unused c n reply)
Given-new g db doc id unused fresh same (by_hand e) =
    rw (e, same) (manual_new db.next_id db.refunds fresh)

-- The move of step 5 keeps the document one of this call.
submit-cases :
    (now : ℕ) (s : StrategyResult) (doc : Refund)
    → doc.state ≡ initiated
    → (submit now s doc ≡ ok doc) ⊎ (submit now s doc ≡ ok (record doc { state = pending }))
unfolding submit transition_refund_state
submit-cases now s doc e = ground arith

module _ (faults : Faults) (g : Gateway) (now : ℕ) (channel : Channel) (dto : Initiate)
    (order : Order) where
  submit_attempt-Leaves :
      (id : ℕ) (doc : Refund) (rs : List Refund) (db : Db)
      → db.refunds ≡ rs ++ doc ∷ []
      → find_by refund_key id rs ≡ none
      → IsOf dto id doc
      → doc.state ≡ initiated
      → IsClear doc rs
      → ((i : GatewayId)
          → Given g doc i
          → any (λ r. same_gateway_id r.gateway_refund_id i) rs ≡ false)
      → Leaves dto id rs db (submit_attempt faults g now channel dto order doc db)
  unfolding submit_attempt
  submit_attempt-Leaves id doc rs db shape new d start clear unused =
      elim (execute-cases g channel doc order (first_key dto.idempotency_key)) [
        | inl (e, threw) ↦
            rw (threw, submit_attempt) (crashed e doc doc refl shape d d clear, λ j. refl)
        | inr (s, accepted, given) ↦
            let doc' : Refund = record doc { gateway_refund_id = s.gateway_refund_id } in
            let d' : IsOf dto id doc' = record {
              same_id = d.same_id;
              same_order = d.same_order;
              same_amount = d.same_amount;
              holds = d.holds;
              may_fail = d.may_fail;
            } in
            let sent : Refund = record doc' { state = pending } in
            let sent_of : IsOf dto id sent = record {
              same_id = d.same_id;
              same_order = d.same_order;
              same_amount = d.same_amount;
              holds = d.same_amount;
              may_fail = unfold can_move in refl;
            } in
            let clear' : IsClear doc' rs =
              IsClear-with doc doc' s.gateway_refund_id rs refl refl refl
                (unused s.gateway_refund_id given) clear in
            let clear'' : IsClear sent rs =
              IsClear-with doc sent s.gateway_refund_id rs refl refl refl
                (unused s.gateway_refund_id given) clear in
            elim (submit-cases now s doc' start) [
              | inl kept ↦
                  rw (accepted, kept, submit_attempt)
                    (finish_attempt-Leaves faults now id dto s doc' doc rs db shape new d' d clear')
              | inr moved ↦
                  rw (accepted, moved, submit_attempt)
                    (finish_attempt-Leaves faults now id dto s sent doc rs db shape new sent_of d
                      clear'')
            ]
      ]

  -- Where the gateway's ids are new, the whole `try` adds at most one refund, at the end, which is
  -- one of this call, and changes no refundable amount.
  pub attempt-Leaves :
      (db : Db)
      → NewIds g db.refunds
      → IsFresh db
      → Leaves dto db.next_id db.refunds db (attempt faults g now channel dto order db)
  unfolding attempt build_refund_doc
  attempt-Leaves db unused fresh =
      let doc = build_refund_doc db.next_id now channel dto order in
      let d : IsOf dto db.next_id doc = record {
        same_id = refl;
        same_order = refl;
        same_amount = refl;
        holds = refl;
        may_fail = unfold can_move in refl;
      } in
      elim (create_refund-cases faults.create doc db) [
        | inl (e, refused) ↦ rw (refused, attempt) (stopped e refl refl, λ j. refl)
        | inr (made, clear) ↦
            rw (made, attempt)
              (submit_attempt-Leaves db.next_id doc db.refunds
                (record db { refunds = db.refunds ++ doc ∷ []; next_id = db.next_id + 1 }) refl
                (find_fresh db.next_id db.refunds fresh) d refl clear
                (λ i. Given-new g db doc i unused fresh refl))
      ]
