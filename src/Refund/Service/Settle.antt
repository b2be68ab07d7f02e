-- ===== src/Refund/Service/Settle.antt =====
-- `markManualRefundProcessed` and `processWebhookUpdate` of server/services/refundService.js.
pub mod Webhook
pub mod Manual
mod Tests
use Prim.Native.String.{String}
use lavish_fashion.Prelude.{
  ℕ, Bool, true, false, ◌&&◌, Option, none, some, Exec, Result, ok, err, if◌then◌else◌, pos, sub_ℕ,
  pure, throw, lift, ◌>>=◌, ◌>>◌,
}
use lavish_fashion.Refund.State.{
  RefundState, pending, processed, failed, known, same_state, is_terminal_state,
  should_update_from_webhook,
}
use lavish_fashion.Refund.Errors.{
  Thrown, typed, plain_error, refund_validation_error_of, refund_not_manual,
  invalid_refund_transition_error,
}
use lavish_fashion.Refund.Store.{
  Db, Refund, Faults, Channel, bank_transfer, GatewayId, unset, same_gateway_id, gateway_reference,
  manual_text, from_razorpay, from_manual, reported, audit_webhook, audit_manual_marked_processed,
  find_first, find_refund_or_throw, save_refund, write_audit,
}
use lavish_fashion.Refund.Ledger.{EntryInput, record_refund, record_adjustment}
use lavish_fashion.Refund.Projector.{project}
use lavish_fashion.Refund.Service.Reserve.{release_refundable_amount, transition_refund_state}

-- What the admin sends; the text of the reference is trimmed and cut by `clip`.
pub record ManualInput : Type 0 where
  pub refund_id : Option ℕ
  pub utr_reference : Option String
  pub notes : Option String
  pub admin_email : Option String

unfoldable pub is_bank_transfer : Channel → Bool
is_bank_transfer bank_transfer = true
is_bank_transfer _ = false

abbrev note : Option String → String → String
note none old = old
note (some new) old = new

-- The two guards on the stored refund, and its new fields.
settle_by_hand : ℕ → String → Option String → String → Refund → Result Thrown Refund
unfolding is_bank_transfer is_terminal_state transition_refund_state
settle_by_hand now utr notes email r =
    if is_bank_transfer r.channel
    then if is_terminal_state r.state
      then err (typed invalid_refund_transition_error)
      else transition_refund_state now
          (record r {
            manual_reference = utr;
            notes = note notes r.notes;
            marked_processed_by = email;
          })
          processed
    else err (typed (plain_error 409 refund_not_manual))

abbrev transfer_row : Refund → EntryInput
transfer_row r = record {
  amount_in_paise = some (sub_ℕ 0 r.amount_in_paise);
  source = some from_manual;
  reference_id = manual_text r.manual_reference;
  order_id = some r.order_id;
  refund_id = some r.id;
}

-- The writes behind the guards.
store_settled : Faults → ℕ → String → Refund → Exec Db Thrown Refund
unfolding save_refund record_refund project write_audit
store_settled faults now email r = do
  save_refund faults.save r
  record_refund faults.ledger (transfer_row r)
  _ ← project faults.project now r.order_id
  write_audit audit_manual_marked_processed r email
  pure r

mark_settled : Faults → ℕ → ℕ → String → Option String → String → Exec Db Thrown Refund
unfolding find_refund_or_throw settle_by_hand store_settled
mark_settled faults now k utr notes email = do
  r ← find_refund_or_throw k
  settled ← lift (settle_by_hand now utr notes email r)
  store_settled faults now email settled

abbrev invalid : Thrown
invalid = typed refund_validation_error_of

pub mark_manual_refund_processed :
    (String → String) → Faults → ℕ → ManualInput → Exec Db Thrown Refund
unfolding mark_settled
mark_manual_refund_processed clip faults now input = elim input.refund_id [
  | none ↦ throw invalid
  | some k ↦ elim input.utr_reference [
    | none ↦ throw invalid
    | some utr ↦ elim input.admin_email [
      | none ↦ throw invalid
      | some email ↦ mark_settled faults now k (clip utr) input.notes email
    ]
  ]
]

-- `refundEntity.status`, in lower case: the five names that STRATEGY_GATEWAY_STATUS_TO_STATE maps,
-- or another text.
pub data GatewayStatus : Type 0 where
  status_processed status_refunded status_pending status_created status_failed : GatewayStatus
  status_other : String → GatewayStatus

unfoldable pub state_of_gateway_status : GatewayStatus → Option RefundState
state_of_gateway_status status_processed = some processed
state_of_gateway_status status_refunded = some processed
state_of_gateway_status status_pending = some pending
state_of_gateway_status status_created = some pending
state_of_gateway_status status_failed = some failed
state_of_gateway_status (status_other s) = none

-- The refund entity of an event: its id (`unset` where it is missing or empty), its status, and
-- what it says of a failure (the description, else the note, else the default text).
pub record RefundEntity : Type 0 where
  pub id : GatewayId
  pub status : GatewayStatus
  pub failure_text : String

abbrev pub has_gateway_id : GatewayId → Refund → Bool
has_gateway_id g r = same_gateway_id r.gateway_refund_id g

explain : RefundEntity → RefundState → Refund → Refund
explain entity failed r = record r { failure_reason = some (reported entity.failure_text) }
explain entity _ r = r

abbrev reversal_row : Refund → EntryInput
reversal_row r = record {
  amount_in_paise = some (pos r.amount_in_paise);
  source = some from_razorpay;
  reference_id = gateway_reference r.gateway_refund_id;
  order_id = some r.order_id;
  refund_id = some r.id;
}

-- The two writes for a refund that bounced after the ledger was debited.
reverse : Faults → RefundState → RefundState → Refund → Exec Db Thrown (Unit {0})
unfolding same_state release_refundable_amount record_adjustment
reverse faults before incoming r =
    if same_state incoming failed && same_state before pending
    then (do
      release_refundable_amount faults.release r.order_id r.amount_in_paise
      record_adjustment faults.ledger (reversal_row r))
    else pure tt

advance : Faults → ℕ → RefundEntity → RefundState → Refund → Exec Db Thrown Refund
unfolding explain transition_refund_state save_refund reverse project write_audit
advance faults now entity incoming r = do
  moved ← lift (transition_refund_state now (explain entity incoming r) incoming)
  save_refund faults.save moved
  reverse faults r.state incoming moved
  _ ← project faults.project now moved.order_id
  write_audit (audit_webhook incoming) moved "system"
  pure moved

-- An event on a known refund.
apply_event : Faults → ℕ → RefundEntity → Refund → Exec Db Thrown Refund
unfolding state_of_gateway_status should_update_from_webhook advance
apply_event faults now entity r = elim (state_of_gateway_status entity.status) [
  | none ↦ pure r
  | some incoming ↦
      if should_update_from_webhook (known r.state) (known incoming)
      then advance faults now entity incoming r
      else pure r
]

-- The lookup of the refund: `none` as the result is the unknown refund that is skipped.
process_known : Faults → ℕ → RefundEntity → Exec Db Thrown (Option Refund)
unfolding apply_event same_gateway_id
process_known faults now entity db = elim (find_first (has_gateway_id entity.id) db.refunds) [
  | none ↦ (ok none, db)
  | some r ↦ (do after ← apply_event faults now entity r; pure (some after)) db
]

-- A missing entity, or one without an id, is a validation error.
pub process_webhook_update : Faults → ℕ → Option RefundEntity → Exec Db Thrown (Option Refund)
unfolding process_known
process_webhook_update faults now none db = (err invalid, db)
process_webhook_update faults now (some entity) db =
    if same_gateway_id entity.id unset
    then (err invalid, db)
    else process_known faults now entity db
