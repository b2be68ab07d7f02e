-- ===== src/Shipping/Drain.antt =====
-- How a claimed event is processed, and the loop over what is due, in
-- server/services/shiprocketWebhookService.js.
use Prim.Native.String.{String}
use lavish_fashion.Prelude.{
  ℕ, zero, suc, ◌+◌, ◌-◌, leb, Bool, true, false, not, ◌&&◌, Option, none, some, Result, ok, err,
  if◌then◌else◌,
}
use lavish_fashion.Orders.{Order, OrderStatus, same_status}
use lavish_fashion.Orders.World.{World}
use lavish_fashion.Orders.Cancel.{Setting, set_shiprocket}
use lavish_fashion.Orders.Status.{
  is_finalized_order_status, TransitionError, validate_order_status_transition,
  apply_order_status_transition,
}
use lavish_fashion.Orders.Broken.{broken_change}
use lavish_fashion.Shipping.{
  Payload, ProcessingStatus, processed, ignored, unmatched, failed, Event, Post, set_event,
}
use lavish_fashion.Shipping.Signal.{
  resolve_shiprocket_local_status, build_shiprocket_webhook_update_set,
  find_order_for_shiprocket_webhook,
}
use lavish_fashion.Shipping.Queue.{
  compute_next_retry_at, claim_queued_webhook_event, finalize, mark_event_failed,
}

pub record Outcome : Type 0 where
  pub outcome : ProcessingStatus
  pub retry_scheduled : Bool

pub record Drained : Type 0 where
  pub claimed_count : ℕ
  pub processed_count : ℕ
  pub ignored_count : ℕ
  pub unmatched_count : ℕ
  pub failed_count : ℕ
  pub retry_scheduled_count : ℕ

abbrev pub nothing_drained : Drained
nothing_drained = record {
  claimed_count = 0;
  processed_count = 0;
  ignored_count = 0;
  unmatched_count = 0;
  failed_count = 0;
  retry_scheduled_count = 0;
}

-- One claimed event, counted under its outcome.
unfoldable pub count_status : ProcessingStatus → Drained → Drained
count_status processed d = record d { processed_count = suc d.processed_count }
count_status ignored d = record d { ignored_count = suc d.ignored_count }
count_status unmatched d = record d { unmatched_count = suc d.unmatched_count }
count_status _ d = record d { failed_count = suc d.failed_count }

abbrev pub retries : Bool → ℕ
retries true = 1
retries false = 0

unfoldable pub count_outcome : Outcome → Drained → Drained
unfolding count_status
count_outcome o d = count_status o.outcome (record d {
  claimed_count = suc d.claimed_count;
  retry_scheduled_count = retries o.retry_scheduled + d.retry_scheduled_count;
})

abbrev pub closed : ProcessingStatus → Outcome
closed status = record { outcome = status; retry_scheduled = false }

abbrev pub is_some : Option ℕ → Bool
is_some none = false
is_some (some t) = true

-- The event is closed as `status`, for an order and what the event says of it.
abbrev pub close :
    ℕ → Event → ProcessingStatus → Option ℕ → Option OrderStatus → Post → Outcome × Post
close now e status matched local p =
    (closed status, set_event e.id (finalize now status matched local none) p)

abbrev pub in_world : (World → World) → Post → Post
in_world f p = record p { world = f p.world }

-- The `try` around the transition: a refused one, which is an error with status 400, still stores
-- the fields of the shipment.
unfoldable pub settle_transition :
    ℕ
    → Event
    → Order
    → OrderStatus
    → (World → World)
    → Result TransitionError Bool × World
    → Post
    → Outcome × Post
settle_transition now e o status update (ok rewards, w) p =
    close now e processed (some o.id) (some status) (record p { world = w })
settle_transition now e o status update (err x, w) p =
    close now e ignored (some o.id) (some status) (record p { world = update w })

unfoldable pub leave_unmatched : ℕ → Event → Post → Outcome × Post
unfolding compute_next_retry_at
leave_unmatched now e p =
    let retry = compute_next_retry_at now e.processing_attempts in
    (
      record { outcome = unmatched; retry_scheduled = is_some retry },
      set_event e.id (finalize now unmatched none none retry) p,
    )

-- The outer `catch`.
unfoldable pub crash : ℕ → Event → Post → Outcome × Post
unfolding compute_next_retry_at
crash now e p =
    let retry = compute_next_retry_at now e.processing_attempts in
    (
      record { outcome = failed; retry_scheduled = is_some retry },
      set_event e.id (mark_event_failed retry) p,
    )

module _ (setting : Setting) where
  -- For an order that was found and a status that the event names.
  unfoldable pub move_order : ℕ → Event → Payload → Order → OrderStatus → Post → Outcome × Post
  unfolding is_finalized_order_status same_status apply_order_status_transition
      build_shiprocket_webhook_update_set settle_transition
  move_order now e payload o status p =
      let update = build_shiprocket_webhook_update_set now o.shiprocket payload in
      if is_finalized_order_status o.status && not (same_status o.status status)
      then close now e ignored (some o.id) (some status) (in_world (set_shiprocket o.id update) p)
      else settle_transition now e o status (set_shiprocket o.id update)
          (apply_order_status_transition setting now o status (some update) p.world) p

  unfoldable pub update_order :
      ℕ → Event → Payload → Order → Option OrderStatus → Post → Outcome × Post
  unfolding move_order
  update_order now e payload o none p = close now e processed (some o.id) none (
      in_world (set_shiprocket o.id (build_shiprocket_webhook_update_set now o.shiprocket payload))
        p)
  update_order now e payload o (some status) p = move_order now e payload o status p

  -- What is left of the world where the transition throws after its write of the status and the
  -- first `n` parts of what comes then. For an event that leads to no transition it is the write
  -- to the order that throws.
  unfoldable pub break_update : ℕ → ℕ → Payload → Order → Option OrderStatus → World → World
  unfolding is_finalized_order_status same_status validate_order_status_transition broken_change
      build_shiprocket_webhook_update_set
  break_update n now payload o none w = w
  break_update n now payload o (some status) w =
      if is_finalized_order_status o.status && not (same_status o.status status)
      then w
      else elim (validate_order_status_transition o.status status) [
        | err x ↦ w
        | ok valid ↦
            broken_change n setting now o status
              (some (build_shiprocket_webhook_update_set now o.shiprocket payload)) w
      ]

  module _ (upper : String → String) where
    unfoldable pub match_order : ℕ → Event → Payload → Option Order → Post → Outcome × Post
    unfolding leave_unmatched update_order resolve_shiprocket_local_status
    match_order now e payload none p = leave_unmatched now e p
    match_order now e payload (some o) p =
        update_order now e payload o (resolve_shiprocket_local_status upper payload) p

    unfoldable pub look_at : ℕ → Event → Option Payload → Post → Outcome × Post
    unfolding match_order find_order_for_shiprocket_webhook
    look_at now e none p = close now e ignored none none p
    look_at now e (some payload) p =
        match_order now e payload (find_order_for_shiprocket_webhook payload p.world.loyalty.orders)
          p

    unfoldable pub break_match : ℕ → ℕ → Payload → Option Order → World → World
    unfolding break_update resolve_shiprocket_local_status
    break_match n now payload none w = w
    break_match n now payload (some o) w =
        break_update n now payload o (resolve_shiprocket_local_status upper payload) w

    unfoldable pub break_off : ℕ → ℕ → Option Payload → World → World
    unfolding break_match find_order_for_shiprocket_webhook
    break_off n now none w = w
    break_off n now (some payload) w =
        break_match n now payload (find_order_for_shiprocket_webhook payload w.loyalty.orders) w

-- Where a call in the `try` throws: before any write, after the write of the status and some of the
-- parts that follow it, or at the last write, which closes the event.
pub data Throw : Type 0 where
  nowhere at_start at_end : Throw
  in_transition : ℕ → Throw

-- `throws` says where the processing of an event throws, if it does. The write of the outer `catch`
-- is not taken to throw.
module _ (setting : Setting) (upper : String → String) where
  unfoldable pub process_thrown : Throw → ℕ → Event → Post → Outcome × Post
  unfolding look_at crash break_off
  process_thrown nowhere now e p = look_at setting upper now e e.payload p
  process_thrown at_start now e p = crash now e p
  process_thrown (in_transition n) now e p =
      crash now e (in_world (break_off setting upper n now e.payload) p)
  process_thrown at_end now e p =
      crash now e (in_world (λ w. (look_at setting upper now e e.payload p).1.world) p)

module _ (throws : Event → Throw) (setting : Setting) (upper : String → String) where
  unfoldable pub process_claimed_webhook_event : ℕ → Event → Post → Outcome × Post
  unfolding process_thrown
  process_claimed_webhook_event now e p = process_thrown setting upper (throws e) now e p

  unfoldable pub process_shiprocket_webhook_event_by_id : ℕ → ℕ → ℕ → Post → Option Outcome × Post
  unfolding claim_queued_webhook_event process_claimed_webhook_event
  process_shiprocket_webhook_event_by_id now stale_after k p =
      process_found (claim_queued_webhook_event now stale_after (some k) p)
    where
      process_found : Option Event × Post → Option Outcome × Post
      process_found (none, p') = (none, p')
      process_found (some e, p') =
          let (outcome, p'') = process_claimed_webhook_event now e p' in (some outcome, p'')

  -- One round of the loop, with what follows it.
  unfoldable pub round : ℕ → (Post → Drained × Post) → Option Event × Post → Drained × Post
  unfolding process_claimed_webhook_event
  round now rest (none, p) = (nothing_drained, p)
  round now rest (some e, p) =
      let (outcome, p') = process_claimed_webhook_event now e p in
      let (drained, p'') = rest p' in (count_outcome outcome drained, p'')

  -- `limit` rounds at most; `clock` gives the time at the start of each of those that are left.
  module _ (clock : ℕ → ℕ) (start budget stale_after : ℕ) where
    unfoldable pub drain_queued_shiprocket_webhook_events : ℕ → Post → Drained × Post
    unfolding claim_queued_webhook_event round
    drain_queued_shiprocket_webhook_events zero p = (nothing_drained, p)
    drain_queued_shiprocket_webhook_events (suc limit) p = elim (leb budget (clock limit - start)) [
      | true ↦ (nothing_drained, p)
      | false ↦
          round (clock limit) (drain_queued_shiprocket_webhook_events limit)
            (claim_queued_webhook_event (clock limit) stale_after none p)
    ]
