-- ===== src/Refund/Ledger/Tests.antt =====
-- Instances of the theorems on the ledger.
use lavish_fashion.Prelude.{some, negsuc}
use lavish_fashion.Refund.Store.{from_manual, no_reference}
use lavish_fashion.Refund.Ledger.{EntryInput}
use lavish_fashion.Refund.Ledger.Laws.{entry}

abbrev input : EntryInput
input = entry (negsuc 499) from_manual no_reference 1 (some 1)
