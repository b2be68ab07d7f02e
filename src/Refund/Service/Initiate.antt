-- ===== src/Refund/Service/Initiate.antt =====
-- `initiateRefund` of server/services/refundService.js.
pub mod Shape
mod Compensate
pub mod Conserve
pub mod Reseed
mod Tests
use Prim.Native.String.{String}
use lavish_fashion.Prelude.{
  ℕ, suc, Bool, Option, none, some, Exec, Result, ok, err, ◌==◌, if◌then◌else◌, ℤ, pos, sub_ℕ, pure,
  lift, gets, beside, ◌>>=◌, ◌>>◌,
}
use lavish_fashion.Refund.State.{initiated, pending, failed, can_move}
use lavish_fashion.Refund.Errors.{
  Thrown, typed, plain_error, internal_error, is_refund_error, refund_validation_error_of,
  refund_not_found_error, refund_order_unpaid, refund_initiate_unexpected,
}
use lavish_fashion.Refund.Store.{
  Db, Order, Refund, Faults, Channel, razorpay, unset, gateway_reference, LedgerSource,
  from_razorpay, from_manual, message_of, audit_initiated, audit_failed, find_order, find_first,
  create_refund, save_refund, write_audit,
}
use lavish_fashion.Refund.Router.{Gateway, StrategyResult, first_key, choose_channel, execute}
use lavish_fashion.Refund.Ledger.{EntryInput, record_refund}
use lavish_fashion.Refund.Projector.{project}
use lavish_fashion.Refund.Service.Reserve.{
  compute_next_retry_at, reserve_refundable_amount, release_refundable_amount,
  transition_refund_state,
}

-- The DTO, with what may be missing as an option; `amount` is `none` when it is no integer.
pub record InitiateInput : Type 0 where
  pub order_id : Option ℕ
  pub amount : Option ℤ
  pub idempotency_key : Option ℕ
  pub admin_email : Option String
  pub notes : String

pub record Initiate : Type 0 where
  pub order_id : ℕ
  pub amount : ℕ
  pub idempotency_key : ℕ
  pub admin_email : String
  pub notes : String

abbrev invalid : Thrown
invalid = typed refund_validation_error_of

positive_amount : Option ℤ → Option ℕ
positive_amount (some (pos (suc n))) = some (suc n)
positive_amount _ = none

pub validate : InitiateInput → Result Thrown Initiate
unfolding positive_amount
validate dto = elim dto.order_id [
  | none ↦ err invalid
  | some order ↦ elim (positive_amount dto.amount) [
    | none ↦ err invalid
    | some amount ↦ elim dto.idempotency_key [
      | none ↦ err invalid
      | some key ↦ elim dto.admin_email [
        | none ↦ err invalid
        | some email ↦ ok (record {
          order_id = order;
          amount = amount;
          idempotency_key = key;
          admin_email = email;
          notes = dto.notes;
        })
      ]
    ]
  ]
]

-- What a call may throw beside its error: the refund document, once it is created.
abbrev pub Attempt : Type 0 → Type 0
Attempt = Exec Db (Thrown × Option Refund)

pub data Outcome : Type 0 where
  replayed : Refund → Option Order → Outcome
  started : Refund → Order → Outcome

unfoldable pub build_refund_doc : ℕ → ℕ → Channel → Initiate → Order → Refund
build_refund_doc id now channel dto order = record {
  id = id;
  order_id = dto.order_id;
  payment_id = order.razorpay_payment_id;
  amount_in_paise = dto.amount;
  state = initiated;
  channel = channel;
  notes = dto.notes;
  initiated_by = dto.admin_email;
  idempotency_key = dto.idempotency_key;
  gateway_refund_id = unset;
  manual_reference = "";
  marked_processed_by = "";
  retry_count = 0;
  max_retries = 3;
  next_retry_at = none;
  failure_reason = none;
  refund_initiated_at = now;
  refund_processed_at = none;
  permanently_failed_at = none;
}

ledger_source : Channel → LedgerSource
ledger_source razorpay = from_razorpay
ledger_source _ = from_manual

-- What follows the strategy: the move to `pending` and the ledger row, or neither.
submit : ℕ → StrategyResult → Refund → Result Thrown Refund
unfolding transition_refund_state
submit now s doc =
    if s.skip_pending_transition then ok doc else transition_refund_state now doc pending

abbrev debit_row : Refund → EntryInput
debit_row doc = record {
  amount_in_paise = some (sub_ℕ 0 doc.amount_in_paise);
  source = some (ledger_source doc.channel);
  reference_id = gateway_reference doc.gateway_refund_id;
  order_id = some doc.order_id;
  refund_id = some doc.id;
}

debit : Bool → StrategyResult → Refund → Exec Db Thrown (Unit {0})
unfolding record_refund ledger_source
debit fault s doc =
    if s.skip_pending_transition then pure tt else record_refund fault (debit_row doc)

-- Behind the move of step 5: the save, the ledger row, the projection and the audit row.
finish_attempt : Faults → ℕ → Initiate → StrategyResult → Refund → Attempt Refund
unfolding debit save_refund project write_audit
finish_attempt faults now dto s submitted = do
  beside (some submitted) (save_refund faults.save submitted)
  beside (some submitted) (debit faults.ledger s submitted)
  _ ← beside (some submitted) (project faults.project now dto.order_id)
  write_audit audit_initiated submitted dto.admin_email
  pure submitted

-- Steps 4 and 5, and what follows.
submit_attempt : Faults → Gateway → ℕ → Channel → Initiate → Order → Refund → Attempt Refund
unfolding submit execute finish_attempt
submit_attempt faults g now channel dto order doc = do
  s ← beside (some doc) (lift (execute g channel doc order (first_key dto.idempotency_key)))
  let accepted = record doc { gateway_refund_id = s.gateway_refund_id }
  submitted ← beside (some accepted) (lift (submit now s accepted))
  finish_attempt faults now dto s submitted

-- The body of the `try`: steps 3 to 7.
pub attempt : Faults → Gateway → ℕ → Channel → Initiate → Order → Attempt Refund
unfolding build_refund_doc create_refund submit_attempt
attempt faults g now channel dto order = do
  id ← gets (λ db. db.next_id)
  let doc = build_refund_doc id now channel dto order
  beside none (create_refund faults.create doc)
  submit_attempt faults g now channel dto order doc

-- The refund document that the `catch` writes.
mark_failed : ℕ → Thrown → Refund → Refund
unfolding can_move compute_next_retry_at
mark_failed now e doc =
    let noted = record doc {
      failure_reason = some (message_of e);
      next_retry_at = some (compute_next_retry_at now doc.retry_count);
    } in
    if can_move doc.state failed then record noted { state = failed } else noted

wrap : Thrown → Thrown
unfolding is_refund_error
wrap e = if is_refund_error e then e else typed (internal_error refund_initiate_unexpected)

compensate_doc : Faults → ℕ → Thrown → Option Refund → String → Db → Db
unfolding mark_failed save_refund write_audit
compensate_doc faults now e none actor db = db
compensate_doc faults now e (some doc) actor db =
    let marked = mark_failed now e doc in
    let (_, db') = save_refund faults.mark_failed marked db in
    let (_, db'') = write_audit {E = Thrown} audit_failed marked actor db' in db''

-- The body of the `catch`.
compensate : Faults → ℕ → Initiate → Thrown × Option Refund → Exec Db Thrown Outcome
unfolding compensate_doc release_refundable_amount wrap
compensate faults now dto (e, doc) db =
    let (_, db') = release_refundable_amount faults.release dto.order_id dto.amount db in
    (err (wrap e), compensate_doc faults now e doc dto.admin_email db')

pub settle_attempt :
    Faults → ℕ → Initiate → Order → Result (Thrown × Option Refund) Refund → Exec Db Thrown Outcome
unfolding compensate
settle_attempt faults now dto order (ok refund) db = (ok (started refund order), db)
settle_attempt faults now dto order (err e) db = compensate faults now dto e db

-- Steps 2 to 7, once the order is known to be paid and the channel is chosen.
pub run_refund : Faults → Gateway → ℕ → Channel → Initiate → Exec Db Thrown Outcome
unfolding reserve_refundable_amount attempt settle_attempt
run_refund faults g now channel dto = do
  order ← reserve_refundable_amount dto.order_id dto.amount
  λ db.
      let (r, db') = attempt faults g now channel dto order db in
      settle_attempt faults now dto order r db'

-- Step 1, and the rest.
fresh_refund : Faults → Gateway → ℕ → Initiate → Exec Db Thrown Outcome
unfolding run_refund choose_channel
fresh_refund faults g now dto db = elim (find_order dto.order_id db) [
  | none ↦ (err (typed refund_not_found_error), db)
  | some order ↦
      if order.payment
      then (do channel ← lift (choose_channel (some order)); run_refund faults g now channel dto) db
      else (err (typed (plain_error 409 refund_order_unpaid)), db)
]

abbrev has_key : ℕ → Refund → Bool
has_key key r = r.idempotency_key == key

-- The replay of a known key, or a fresh refund.
start_refund : Faults → Gateway → ℕ → Initiate → Exec Db Thrown Outcome
unfolding fresh_refund
start_refund faults g now dto db = elim (find_first (has_key dto.idempotency_key) db.refunds) [
  | some existing ↦ (ok (replayed existing (find_order existing.order_id db)), db)
  | none ↦ fresh_refund faults g now dto db
]

pub initiate_refund : Faults → Gateway → ℕ → InitiateInput → Exec Db Thrown Outcome
unfolding validate start_refund
initiate_refund faults g now dto = do valid ← lift (validate dto); start_refund faults g now valid
