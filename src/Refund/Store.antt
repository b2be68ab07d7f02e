-- ===== src/Refund/Store.antt =====
-- The collections that the refund services share: the fields of server/models/orderModel.js,
-- refundModel.js, ledgerEntryModel.js and auditLogModel.js that they read or write, and the database
-- calls on them. Document ids, idempotency keys and gateway ids are numbers, since they are only
-- compared; free text that is only stored is a String. `Date.now()` is one number for a call.
use Prim.Native.String.{String}
use lavish_fashion.Prelude.{
  ℕ, ◌+◌, Bool, true, false, not, ◌&&◌, Option, none, some, List, [], ◌∷◌, ◌++◌, any, keep_if,
  find_by, update_by, ◌==◌, if◌then◌else◌, ℤ, Exec, ok, err,
}
use lavish_fashion.Refund.State.{RefundState}
use lavish_fashion.Refund.Errors.{
  Thrown, typed, duplicate_key, database_error, refund_not_found_error,
}

pub data PaymentMethod : Type 0 where
  razorpay_method cod_method other_method : PaymentMethod

pub data Channel : Type 0 where
  razorpay wallet bank_transfer : Channel

-- `gatewayRefundId`: the schema's default '', an id of the gateway, or `manual_<refund id>`.
pub data GatewayId : Type 0 where
  unset : GatewayId
  gateway manual : ℕ → GatewayId

unfoldable pub same_gateway_id : GatewayId → GatewayId → Bool
same_gateway_id unset unset = true
same_gateway_id (gateway a) (gateway b) = a == b
same_gateway_id (manual a) (manual b) = a == b
same_gateway_id _ _ = false

-- Why a refund failed: the message of what was thrown, or the gateway's own description.
pub data Reason : Type 0 where
  message_of : Thrown → Reason
  reported : String → Reason

pub record Refund : Type 0 where
  pub id : ℕ
  pub order_id : ℕ
  pub payment_id : Option ℕ
  pub amount_in_paise : ℕ
  pub state : RefundState
  pub channel : Channel
  pub notes : String
  pub initiated_by : String
  pub idempotency_key : ℕ
  pub gateway_refund_id : GatewayId
  pub manual_reference : String
  pub marked_processed_by : String
  pub retry_count : ℕ
  pub max_retries : ℕ
  pub next_retry_at : Option ℕ
  pub failure_reason : Option Reason
  pub refund_initiated_at : ℕ
  pub refund_processed_at : Option ℕ
  pub permanently_failed_at : Option ℕ

pub data ItemRefund : Type 0 where
  none_refunded partly_refunded fully_refunded : ItemRefund

pub record Item : Type 0 where
  pub price_paise : ℕ
  pub refunded_amount_paise : ℕ
  pub refund_status : ItemRefund

pub data LegacyStatus : Type 0 where
  legacy_pending legacy_processed legacy_failed : LegacyStatus

-- An entry of `order.refunds`; the amount is in rupees, in units of 10^-8.
pub record LegacyRefund : Type 0 where
  pub refund_id : GatewayId
  pub document_id : ℕ
  pub payment_id : Option ℕ
  pub amount : ℕ
  pub status : LegacyStatus
  pub initiated_by : String
  pub idempotency_key : ℕ
  pub created_at : ℕ
  pub processed_at : Option ℕ
  pub failure_reason : Option Reason

pub data RefundStatus : Type 0 where
  no_refund refund_pending refund_partial refund_processed refund_failed : RefundStatus

-- `amount` is in rupees, in units of 10^-8; the other amounts are in paise.
pub record Order : Type 0 where
  pub id : ℕ
  pub payment : Bool
  pub payment_method : PaymentMethod
  pub razorpay_payment_id : Option ℕ
  pub amount : ℕ
  pub amount_in_paise : ℕ
  pub refundable_amount_in_paise : ℕ
  pub refunded_amount_in_paise : ℕ
  pub refunded_amount : ℕ
  pub refund_status : RefundStatus
  pub refund_last_updated_at : Option ℕ
  pub refunds : List LegacyRefund
  pub items : List Item

pub data LedgerType : Type 0 where
  payment_entry refund_entry wallet_credit_entry adjustment_entry : LedgerType

pub data LedgerSource : Type 0 where
  from_razorpay from_wallet from_cod from_manual from_system : LedgerSource

pub data Reference : Type 0 where
  no_reference : Reference
  gateway_reference : GatewayId → Reference
  manual_text : String → Reference

pub record LedgerEntry : Type 0 where
  pub type : LedgerType
  pub amount_in_paise : ℤ
  pub reference_id : Reference
  pub order_id : ℕ
  pub refund_id : Option ℕ
  pub source : LedgerSource

pub data AuditAction : Type 0 where
  audit_initiated audit_failed audit_manual_marked_processed audit_permanently_failed
        audit_retry_succeeded audit_retry_failed :
      AuditAction
  audit_webhook : RefundState → AuditAction

pub record AuditEntry : Type 0 where
  pub action : AuditAction
  pub refund_id : ℕ
  pub order_id : ℕ
  pub actor : String
  pub after : RefundState

pub record Db : Type 0 where
  pub orders : List Order
  pub refunds : List Refund
  pub ledger : List LedgerEntry
  pub audit : List AuditEntry
  -- The id that the next created refund gets.
  pub next_id : ℕ

-- Which database writes of a call fail.
pub record Faults : Type 0 where
  pub create : Bool
  pub save : Bool
  pub ledger : Bool
  pub project : Bool
  pub release : Bool
  pub mark_failed : Bool

abbrev pub no_faults : Faults
no_faults = record {
  create = false;
  save = false;
  ledger = false;
  project = false;
  release = false;
  mark_failed = false;
}

abbrev pub order_key : Order → ℕ
order_key o = o.id

abbrev pub refund_key : Refund → ℕ
refund_key r = r.id

abbrev pub find_order : ℕ → Db → Option Order
find_order k db = find_by order_key k db.orders

abbrev pub find_refund : ℕ → Db → Option Refund
find_refund k db = find_by refund_key k db.refunds

abbrev pub update_order : ℕ → (Order → Order) → Db → Db
update_order k f db = record db { orders = update_by order_key k f db.orders }

abbrev pub find_first : (Refund → Bool) → List Refund → Option Refund
find_first p [] = none
find_first p (r ∷ rs) = if p r then some r else find_first p rs

abbrev pub refunds_of : ℕ → Db → List Refund
refunds_of k db = keep_if (λ r. r.order_id == k) db.refunds

-- The two unique indexes of refundModel.js. The sparse index on `gatewayRefundId` skips only
-- documents without the field, and the schema's default gives every document one.
unfoldable pub breaks_index : Refund → Refund → Bool
unfolding same_gateway_id
breaks_index doc other =
    not (other.id == doc.id)
    && (if other.idempotency_key == doc.idempotency_key
        then true
        else same_gateway_id other.gateway_refund_id doc.gateway_refund_id)

-- refundModel.create
unfoldable pub create_refund : Bool → Refund → Exec Db Thrown (Unit {0})
unfolding breaks_index
create_refund fault doc db =
    if fault
    then (err database_error, db)
    else if any (breaks_index doc) db.refunds
    then (err duplicate_key, db)
    else (ok tt, record db { refunds = db.refunds ++ doc ∷ []; next_id = db.next_id + 1 })

-- refund.save()
unfoldable pub save_refund : Bool → Refund → Exec Db Thrown (Unit {0})
unfolding breaks_index
save_refund fault doc db =
    if fault
    then (err database_error, db)
    else if any (breaks_index doc) db.refunds
    then (err duplicate_key, db)
    else (ok tt, record db { refunds = update_by refund_key doc.id (λ _. doc) db.refunds })

-- findRefundOrThrow
unfoldable pub find_refund_or_throw : ℕ → Exec Db Thrown Refund
find_refund_or_throw k db = elim (find_refund k db) [
  | none ↦ (err (typed refund_not_found_error), db)
  | some r ↦ (ok r, db)
]

-- writeAudit: a failure to write is swallowed, so it is modelled as a write that always happens.
unfoldable pub write_audit : {E : Type 0} → AuditAction → Refund → String → Exec Db E (Unit {0})
write_audit action r actor db = (
  ok tt,
  record db {
    audit =
        db.audit
        ++ record {
          action = action;
          refund_id = r.id;
          order_id = r.order_id;
          actor = actor;
          after = r.state;
        }
          ∷ [];
  },
)
