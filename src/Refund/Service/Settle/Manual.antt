-- ===== src/Refund/Service/Settle/Manual.antt =====
-- What an admin's confirmation does to a bank transfer and to the money of its order.
use Prim.Native.String.{String}
use lavish_fashion.Prelude.{ℕ, ◌≡◌, false, Option, some, ok, err, if◌then◌else◌, arith, ◌&&◌}
use lavish_fashion.Refund.State.{processed, can_move}
use lavish_fashion.Refund.Errors.{
  Thrown, typed, plain_error, refund_not_manual, invalid_refund_transition_error,
}
use lavish_fashion.Refund.Store.{Db, Refund, Faults, find_refund, find_refund_or_throw}
use lavish_fashion.Refund.Service.Reserve.{stamp, transition_refund_state}
use lavish_fashion.Refund.Service.Settle.{
  ManualInput, is_bank_transfer, note, settle_by_hand, mark_settled, mark_manual_refund_processed,
}

-- The document that is stored.
abbrev settled : ℕ → String → Option String → String → Refund → Refund
settled now utr notes email r =
    stamp now processed
      (record r { manual_reference = utr; notes = note notes r.notes; marked_processed_by = email })

-- The error of a confirmation that is refused.
abbrev pub refusal : Refund → Thrown
refusal r =
    if is_bank_transfer r.channel
    then typed invalid_refund_transition_error
    else typed (plain_error 409 refund_not_manual)

abbrev pub asked : ℕ → String → Option String → String → ManualInput
asked k utr notes email = record {
  refund_id = some k;
  utr_reference = some utr;
  notes = notes;
  admin_email = some email;
}

found_stored :
    (r : Refund) (db : Db)
    → find_refund r.id db ≡ some r
    → find_refund_or_throw r.id db ≡ (ok r, db)
unfolding find_refund_or_throw
found_stored r db stored = rw (stored, find_refund_or_throw)

settle_by_hand-refused :
    (now : ℕ) (utr : String) (notes : Option String) (email : String) (r : Refund)
    → (is_bank_transfer r.channel && can_move r.state processed) ≡ false
    → settle_by_hand now utr notes email r ≡ err (refusal r)
unfolding settle_by_hand transition_refund_state
settle_by_hand-refused now utr notes email r h = ground arith

module _ (clip : String → String) (now : ℕ) (utr email : String) (notes : Option String)
    (r : Refund) (db : Db) (stored : find_refund r.id db ≡ some r) where
  -- A stored refund of another channel, or one that may not move to `processed` (settled, given up
  -- or failed), is refused with the error for its case, and nothing is written.
  pub mark_manual_refused :
      (faults : Faults)
      → (is_bank_transfer r.channel && can_move r.state processed) ≡ false
      → mark_manual_refund_processed clip faults now (asked r.id utr notes email) db
        ≡ (err (refusal r), db)
  unfolding mark_manual_refund_processed mark_settled
  mark_manual_refused faults h =
      rw (found_stored r db stored, mark_settled)
        (rw (settle_by_hand-refused now (clip utr) notes email r h, mark_settled))
