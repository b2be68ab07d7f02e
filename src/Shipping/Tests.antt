-- ===== src/Shipping/Tests.antt =====
-- Instances of the theorems on the events of Shiprocket, and what the texts of an event say.
use Prim.Native.String.{String}
use lavish_fashion.Prelude.{
  ◌+◌, ◌-◌, ltb, leb, ◌&&◌, ◌≡◌, ◌≢◌, refl, true, false, none, some, [], ◌∷◌, err,
}
use lavish_fashion.Loyalty.Points.{finalize_reserved_loyalty_redemption}
use lavish_fashion.Loyalty.Rewards.{award_order_delivery_rewards}
use lavish_fashion.Orders.{Order, delivered, cancelled}
use lavish_fashion.Orders.Samples.{a_purchase}
use lavish_fashion.Orders.Cancel.{Setting}
use lavish_fashion.Orders.Status.{is_finalized_order_status}
use lavish_fashion.Orders.Effects.{status_at}
use lavish_fashion.Shipping.{Payload, processed, unmatched, failed, Event, Post}
use lavish_fashion.Shipping.Signal.{status_of_signals}
use lavish_fashion.Shipping.Queue.{
  new_event, claim, is_eligible, finalize, mark_event_failed, compute_next_retry_at,
}
use lavish_fashion.Shipping.Drain.{
  Throw, nowhere, in_transition, process_claimed_webhook_event,
  drain_queued_shiprocket_webhook_events,
}
use lavish_fashion.Shipping.Retries.{IsTally, delay, due_again, drain-IsTally}
use lavish_fashion.Shipping.Settles.{Settles}
use lavish_fashion.Shipping.Final.{process-Settles}
use lavish_fashion.Shipping.Matching.{distinct}
use lavish_fashion.Shipping.Runs.{run_keeps_final}

abbrev report : Payload
report = record {
  event_name = none;
  shipment_id = some 31;
  shiprocket_order_id = none;
  reference_order_id = none;
  awb_code = none;
  current_status = some "DELIVERED";
  current_status_code = some 7;
}

abbrev parcel : Order
parcel = record a_purchase { shiprocket = record a_purchase.shiprocket { shipment_id = some 31 } }

abbrev waiting : Event
waiting = new_event 4_000 2 90 (some report)

abbrev setting : Setting
setting = record {
  configured = false;
  cancel_upstream = λ k. err 500;
  rewards = record {
    points_divisor = none;
    min_order_points = none;
    referrer_points = none;
    new_customer_points = none;
  };
}

abbrev inbox : Order → Post
inbox o = record {
  world = record {
    loyalty = record { users = []; orders = o ∷ []; transactions = [] };
    products = [];
    sent = [];
  };
  events = waiting ∷ [];
}

abbrev nothing_fails : Event → Throw
nothing_fails e = nowhere

-- The rewards of a delivery throw.
abbrev rewards_fail : Event → Throw
rewards_fail e = in_transition 2

abbrev same_text : String → String
same_text s = s

-- A parcel that was not delivered counts as delivered.
undelivered_counts : status_of_signals "UNDELIVERED" ≡ some delivered
unfolding status_of_signals
undelivered_counts = refl

process-Settles_example :
    let r =
      process_claimed_webhook_event rewards_fail setting same_text 5_000
        (claim 5_000 waiting)
        (inbox parcel) in
    (in_transition 2 ≢ nowhere → r.0.outcome ≡ failed)
    × Settles same_text
        (claim 5_000 waiting)
        (inbox parcel)
        r.1.world
        (in_transition 2 ≡ nowhere → r.0.outcome ≡ processed)
process-Settles_example =
    process-Settles rewards_fail setting same_text 5_000 (claim 5_000 waiting) (inbox parcel) refl

-- The parcel is delivered, though the event failed.
parcel_moves :
    let r =
      process_claimed_webhook_event rewards_fail setting same_text 5_000
        (claim 5_000 waiting)
        (inbox parcel) in
    (r.0.outcome ≡ failed) × (status_at 1 r.1.world ≡ some delivered)
unfolding process_claimed_webhook_event finalize_reserved_loyalty_redemption
parcel_moves = (refl, refl)

run_keeps_final_example :
    let p' =
      (drain_queued_shiprocket_webhook_events nothing_fails setting same_text
        (λ k. 9_000 - k)
        8_000
        15_000
        300_000
        3
        (inbox (record parcel { status = cancelled }))).1 in
    (distinct p'.world.loyalty.orders ≡ true) × (status_at 1 p'.world ≡ some cancelled)
unfolding is_finalized_order_status
run_keeps_final_example =
    run_keeps_final nothing_fails setting same_text 1 cancelled refl (λ k. 9_000 - k) 8_000 15_000
      300_000 3 (inbox (record parcel { status = cancelled })) refl refl

due_again_example :
    let e = claim 5_000 waiting in
    let retry = compute_next_retry_at 5_000 1 in
    let due = ltb 1 5 && leb (5_000 + delay 1) 6_000 in
    (is_eligible 6_000 300_000 (finalize 5_000 unmatched none none retry e) ≡ due)
    × (is_eligible 6_000 300_000 (mark_event_failed retry e) ≡ due)
due_again_example = due_again (claim 5_000 waiting) 5_000 6_000 300_000

drain-IsTally_example :
    IsTally 3
      (drain_queued_shiprocket_webhook_events nothing_fails setting same_text
        (λ k. 9_000 - k)
        8_000
        15_000
        300_000
        3
        (inbox parcel)).0
drain-IsTally_example =
    drain-IsTally nothing_fails setting same_text (λ k. 9_000 - k) 8_000 15_000 300_000 3
      (inbox parcel)

-- The run delivers the parcel.
parcel_arrives :
    status_at 1
      (drain_queued_shiprocket_webhook_events nothing_fails setting same_text
        (λ k. 9_000 - k)
        8_000
        15_000
        300_000
        3
        (inbox parcel)).1.world
    ≡ some delivered
unfolding drain_queued_shiprocket_webhook_events award_order_delivery_rewards
    finalize_reserved_loyalty_redemption
parcel_arrives = refl
