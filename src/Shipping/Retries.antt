-- ===== src/Shipping/Retries.antt =====
-- When an event that was not matched, or that failed, is tried again, and what a run over the queue
-- counts.
use Prim.Native.String.{String}
use lavish_fashion.Prelude.{
  ℕ, zero, suc, ◌+◌, ◌-◌, ◌*◌, ◌^◌, ◌≤◌, ltb, leb, ◌≡◌, refl, Bool, ◌&&◌, Option, none, some, inl,
  inr, Bool-cases, arith,
}
use lavish_fashion.Orders.Cancel.{Setting}
use lavish_fashion.Shipping.{ProcessingStatus, processed, ignored, unmatched, Event, Post}
use lavish_fashion.Shipping.Queue.{
  compute_next_retry_at, is_past, is_retry_due, is_eligible_as, is_eligible, finalize,
  mark_event_failed, claim_queued_webhook_event,
}
use lavish_fashion.Shipping.Drain.{
  Throw, Drained, count_status, count_outcome, process_claimed_webhook_event, round,
  drain_queued_shiprocket_webhook_events, nothing_drained,
}

-- Between one and eight seconds.
abbrev pub delay : ℕ → ℕ
delay attempts = 1_000 * 2 ^ (attempts - 1)

retry_early :
    (now later attempts : ℕ)
    → (ltb attempts 5 && is_past later (compute_next_retry_at now attempts))
      ≡ (ltb attempts 5 && leb (now + delay attempts) later)
unfolding compute_next_retry_at
retry_early now later zero = refl
retry_early now later (suc zero) = refl
retry_early now later (suc (suc zero)) = refl
retry_early now later (suc (suc (suc zero))) = refl
retry_early now later (suc (suc (suc (suc zero)))) = refl
retry_early now later (suc (suc (suc (suc (suc n))))) = ground arith

-- An event that is closed as unmatched at a time, or that fails then, is due again exactly from the
-- delay after it on that its number of attempts gives, whatever a run takes for stale, and it is
-- never due again from the fifth attempt on.
pub due_again :
    (e : Event) (now later stale_after : ℕ)
    → let retry = compute_next_retry_at now e.processing_attempts in
      let due = ltb e.processing_attempts 5 && leb (now + delay e.processing_attempts) later in
      (is_eligible later stale_after (finalize now unmatched none none retry e) ≡ due)
      × (is_eligible later stale_after (mark_event_failed retry e) ≡ due)
unfolding is_eligible_as is_retry_due
due_again e now later stale_after =
    (retry_early now later e.processing_attempts, retry_early now later e.processing_attempts)

-- At most `limit` events are claimed, and each is counted under one outcome.
abbrev pub IsTally : ℕ → Drained → Type 0
IsTally limit d =
    (d.claimed_count ≤ limit)
    × (d.claimed_count ≡ d.processed_count + d.ignored_count + d.unmatched_count + d.failed_count)

count-IsTally :
    (limit : ℕ) (status : ProcessingStatus) (again : Bool) (d : Drained)
    → IsTally limit d
    → IsTally (suc limit) (count_outcome (record { outcome = status; retry_scheduled = again }) d)
unfolding count_outcome count_status
count-IsTally limit processed again d h = (omega (arith, h.0), omega (arith, h.1))
count-IsTally limit ignored again d h = (omega (arith, h.0), omega (arith, h.1))
count-IsTally limit unmatched again d h = (omega (arith, h.0), omega (arith, h.1))
count-IsTally limit _ again d h = (omega (arith, h.0), omega (arith, h.1))

none-IsTally : (limit : ℕ) → IsTally limit nothing_drained
none-IsTally limit = (omega arith, refl)

module _ (throws : Event → Throw) (setting : Setting) (upper : String → String) where
  round-IsTally :
      (now limit : ℕ) (rest : Post → Drained × Post) (c : Option Event × Post)
      → ((p : Post) → IsTally limit (rest p).0)
      → IsTally (suc limit) (round throws setting upper now rest c).0
  unfolding round
  round-IsTally now limit rest (none, p) tally = none-IsTally (suc limit)
  round-IsTally now limit rest (some e, p) tally =
      let moved = process_claimed_webhook_event throws setting upper now e p in
      count-IsTally limit moved.0.outcome moved.0.retry_scheduled (rest moved.1).0 (tally moved.1)

  -- A run over the queue claims at most as many events as it may, and each of them is counted once:
  -- as processed, ignored, unmatched or failed.
  pub drain-IsTally :
      (clock : ℕ → ℕ) (start budget stale_after limit : ℕ) (p : Post)
      → IsTally limit
          (drain_queued_shiprocket_webhook_events throws setting upper clock start budget
            stale_after limit p).0
  unfolding drain_queued_shiprocket_webhook_events round
  drain-IsTally clock start budget stale_after zero p = none-IsTally 0
  drain-IsTally clock start budget stale_after (suc limit) p =
      elim (Bool-cases (leb budget (clock limit - start))) [
        | inl over ↦ rw (over, drain_queued_shiprocket_webhook_events) (none-IsTally (suc limit))
        | inr going ↦
            rw (going, drain_queued_shiprocket_webhook_events)
              (round-IsTally (clock limit) limit
                (drain_queued_shiprocket_webhook_events throws setting upper clock start budget
                  stale_after limit)
                (claim_queued_webhook_event (clock limit) stale_after none p)
                (drain-IsTally clock start budget stale_after limit))
      ]
