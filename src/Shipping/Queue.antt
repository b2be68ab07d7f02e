-- ===== src/Shipping/Queue.antt =====
-- Which event is due, and how it is claimed and closed, in
-- server/services/shiprocketWebhookService.js. Times are in milliseconds.
use lavish_fashion.Prelude.{
  ℕ, suc, ◌+◌, ◌-◌, ◌*◌, ◌^◌, min, ltb, leb, Bool, true, false, ◌&&◌, Option, none, some, List, [],
  ◌∷◌, ◌++◌, any, ◌==◌, if◌then◌else◌,
}
use lavish_fashion.Orders.{OrderStatus}
use lavish_fashion.Shipping.{
  Payload, ProcessingStatus, queued, processing, unmatched, failed, Event, Post, set_event,
}

abbrev pub max_retry_attempts : ℕ
max_retry_attempts = 5

abbrev pub retry_base_delay_ms : ℕ
retry_base_delay_ms = 1_000

abbrev pub max_retry_delay_ms : ℕ
max_retry_delay_ms = 5 * 60 * 1_000

unfoldable pub compute_next_retry_at : ℕ → ℕ → Option ℕ
compute_next_retry_at now attempts =
    if leb max_retry_attempts attempts
    then none
    else some (now + min max_retry_delay_ms (retry_base_delay_ms * 2 ^ (attempts - 1)))

-- Missing, or not later than.
abbrev pub is_past : ℕ → Option ℕ → Bool
is_past now none = true
is_past now (some t) = leb t now

unfoldable pub is_retry_due : ℕ → Event → Bool
is_retry_due now e = ltb e.processing_attempts max_retry_attempts && is_past now e.next_retry_at

-- `buildDrainEligibilityQuery`.
unfoldable pub is_eligible_as : ℕ → ℕ → ProcessingStatus → Event → Bool
unfolding is_retry_due
is_eligible_as now stale_after queued e = true
is_eligible_as now stale_after failed e = is_retry_due now e
is_eligible_as now stale_after unmatched e = is_retry_due now e
is_eligible_as now stale_after processing e =
    ltb e.processing_attempts max_retry_attempts
    && is_past (now - stale_after) e.last_processing_started_at
is_eligible_as now stale_after _ e = false

abbrev pub is_eligible : ℕ → ℕ → Event → Bool
is_eligible now stale_after e = is_eligible_as now stale_after e.processing_status e

abbrev pub earlier : Event → Option Event → Event
earlier e none = e
earlier e (some f) = if leb e.received_at f.received_at then e else f

-- The first one in the order of `receivedAt`.
unfoldable pub next_event : (Event → Bool) → List Event → Option Event
next_event p [] = none
next_event p (e ∷ es) = let rest = next_event p es in if p e then some (earlier e rest) else rest

abbrev pub claim : ℕ → Event → Event
claim now e = record e {
  processing_status = processing;
  last_processing_started_at = some now;
  next_retry_at = none;
  processing_attempts = suc e.processing_attempts;
}

abbrev pub wanted : Option ℕ → Event → Bool
wanted none e = true
wanted (some k) e = e.id == k

unfoldable pub claim_queued_webhook_event : ℕ → ℕ → Option ℕ → Post → Option Event × Post
unfolding is_eligible_as next_event
claim_queued_webhook_event now stale_after which p =
    elim (next_event (λ e. is_eligible now stale_after e && wanted which e) p.events) [
      | none ↦ (none, p)
      | some e ↦ (some (claim now e), set_event e.id (claim now) p)
    ]

-- `finalizeWebhookEvent`, with what the callers set.
abbrev pub finalize :
    ℕ → ProcessingStatus → Option ℕ → Option OrderStatus → Option ℕ → Event → Event
finalize now status matched local retry e = record e {
  processing_status = status;
  matched_order_id = matched;
  local_status = local;
  next_retry_at = retry;
  processed_at = some now;
}

abbrev pub mark_event_failed : Option ℕ → Event → Event
mark_event_failed retry e = record e { processing_status = failed; next_retry_at = retry }

abbrev pub key_of : Event → ℕ
key_of e = e.event_key

abbrev pub new_event : ℕ → ℕ → ℕ → Option Payload → Event
new_event now id key payload = record {
  id = id;
  event_key = key;
  payload = payload;
  processing_status = queued;
  processing_attempts = 0;
  matched_order_id = none;
  local_status = none;
  next_retry_at = none;
  last_processing_started_at = none;
  processed_at = none;
  received_at = now;
}

-- The answer says whether the event was stored before. Its key comes from the payload.
unfoldable pub record_shiprocket_webhook_event : ℕ → ℕ → ℕ → Option Payload → Post → Bool × Post
record_shiprocket_webhook_event now id key payload p =
    if any (λ e. key_of e == key) p.events
    then (true, p)
    else (false, record p { events = p.events ++ new_event now id key payload ∷ [] })
