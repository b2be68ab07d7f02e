-- ===== src/Refund/Ledger.antt =====
-- server/services/ledgerService.js: the append-only ledger, in signed paise.
pub mod Laws
mod Tests
use Prim.Native.String.{String}
use lavish_fashion.Prelude.{
  ℕ, zero, Bool, Option, none, some, List, [], ◌∷◌, ◌++◌, Exec, Result, ok, err, ℤ, pos, negsuc,
  ◌+ℤ◌, keep_if, ltb, ◌+◌, pos_part, neg_part, ◌==◌, if◌then◌else◌,
}
use lavish_fashion.Money.{MoneyError, too_large, max_safe_paise}
use lavish_fashion.Refund.Errors.{
  Thrown, typed, internal_error, database_error, ledger_invalid_type, ledger_invalid_source,
  ledger_invalid_amount, ledger_missing_order,
}
use lavish_fashion.Refund.Store.{
  Db, LedgerEntry, LedgerType, LedgerSource, Reference, refund_entry, adjustment_entry,
  payment_entry, wallet_credit_entry,
}

-- What a caller passes: names that may not be in the sets, an amount that may not be an integer
-- (`none`), and an order id that may be missing.
pub record EntryInput : Type 0 where
  pub amount_in_paise : Option ℤ
  pub source : Option LedgerSource
  pub reference_id : Reference
  pub order_id : Option ℕ
  pub refund_id : Option ℕ

-- A valid entry is built once all four tests pass.
build_entry :
    Option LedgerType
    → Option LedgerSource
    → Option ℤ
    → Option ℕ
    → EntryInput
    → Result Thrown LedgerEntry
build_entry none _ _ _ input = err (typed (internal_error ledger_invalid_type))
build_entry (some t) none _ _ input = err (typed (internal_error ledger_invalid_source))
build_entry (some t) (some s) none _ input = err (typed (internal_error ledger_invalid_amount))
build_entry (some t) (some s) (some (pos zero)) _ input =
    err (typed (internal_error ledger_invalid_amount))
build_entry (some t) (some s) (some a) none input =
    err (typed (internal_error ledger_missing_order))
build_entry (some t) (some s) (some a) (some o) input = ok (record {
  type = t;
  amount_in_paise = a;
  reference_id = input.reference_id;
  order_id = o;
  refund_id = input.refund_id;
  source = s;
})

append_entry : Bool → Result Thrown LedgerEntry → Exec Db Thrown (Unit {0})
append_entry fault (err e) db = (err e, db)
append_entry fault (ok entry) db =
    if fault
    then (err database_error, db)
    else (ok tt, record db { ledger = db.ledger ++ entry ∷ [] })

-- `validateBaseEntry`, then the insert.
unfoldable pub write_entry : Bool → Option LedgerType → EntryInput → Exec Db Thrown (Unit {0})
unfolding build_entry append_entry
write_entry fault type input =
    append_entry fault (build_entry type input.source input.amount_in_paise input.order_id input)

unfoldable pub record_payment : Bool → EntryInput → Exec Db Thrown (Unit {0})
unfolding write_entry
record_payment fault = write_entry fault (some payment_entry)

unfoldable pub record_refund : Bool → EntryInput → Exec Db Thrown (Unit {0})
unfolding write_entry
record_refund fault = write_entry fault (some refund_entry)

unfoldable pub record_wallet_credit : Bool → EntryInput → Exec Db Thrown (Unit {0})
unfolding write_entry
record_wallet_credit fault = write_entry fault (some wallet_credit_entry)

unfoldable pub record_adjustment : Bool → EntryInput → Exec Db Thrown (Unit {0})
unfolding write_entry
record_adjustment fault = write_entry fault (some adjustment_entry)

-- The rows stand in the order of their creation.
unfoldable pub get_order_ledger : Option ℕ → Db → List LedgerEntry
get_order_ledger none db = []
get_order_ledger (some k) db = keep_if (λ e. e.order_id == k) db.ledger

abbrev pub balance_of : ℕ → List LedgerEntry → ℤ
balance_of k [] = pos 0
balance_of k (e ∷ es) =
    let rest = balance_of k es in if e.order_id == k then e.amount_in_paise +ℤ rest else rest

-- The sum that the aggregation computes, checked to be a safe integer.
unfoldable pub get_balance : Option ℕ → Db → Result MoneyError ℤ
get_balance none db = ok (pos 0)
get_balance (some k) db =
    let total = balance_of k db.ledger in
    if ltb max_safe_paise (pos_part total + neg_part total) then err too_large else ok total
