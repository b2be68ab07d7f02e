-- ===== src/Refund/Service/Initiate/Tests.antt =====
-- Runs of `initiateRefund`, and instances of its theorems.
use lavish_fashion.Prelude.{ℕ, ◌≡◌, refl, some, arith}
use lavish_fashion.Refund.Store.{Db, no_faults}
use lavish_fashion.Refund.Service.Reserve.{needs_seed}
use lavish_fashion.Refund.Held.{held, live_total}
use lavish_fashion.Refund.Service.Initiate.{Initiate, InitiateInput, initiate_refund}
use lavish_fashion.Refund.Service.Initiate.Conserve.{NoSeed, initiate_refund-held}
use lavish_fashion.Refund.Samples.{untouched, in_pending, accepting, request}

abbrev after : Db → InitiateInput → Db
after db input = (initiate_refund no_faults accepting 5 input db).1

untouched-NoSeed : (k : ℕ) → ◌≡◌ {A = _} (some 1) (some k) → NoSeed k untouched
unfolding needs_seed
untouched-NoSeed k e o there = ground (arith)

initiate_refund-held_example : held 1 (after untouched (request 42 4_000)) ≡ 10_000
initiate_refund-held_example =
    initiate_refund-held no_faults accepting 5 refl refl 1 (request 42 4_000) untouched
      (λ c n e. refl) tt untouched-NoSeed

abbrev valid_request : Initiate
valid_request = record {
  order_id = 1;
  amount = 10_000;
  idempotency_key = 42;
  admin_email = "admin@example.com";
  notes = "";
}

-- Both refunds are live: Rs 200 of an order of Rs 100.
double_refund : live_total 1 (after in_pending (request 42 10_000)).refunds ≡ 20_000
unfolding initiate_refund
double_refund = refl
