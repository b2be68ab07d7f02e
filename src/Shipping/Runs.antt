-- ===== src/Shipping/Runs.antt =====
-- A whole run over the queue of events, and the statuses of orders.
use Prim.Native.String.{String}
use lavish_fashion.Prelude.{
  ℕ, zero, suc, ◌-◌, ◌≡◌, refl, ap, ◌∙◌, inl, inr, true, leb, ◌&&◌, Option, none, some, Bool-cases,
  Option-cases,
}
use lavish_fashion.Orders.{OrderStatus}
use lavish_fashion.Orders.Cancel.{Setting}
use lavish_fashion.Orders.Status.{is_finalized_order_status}
use lavish_fashion.Orders.Effects.{status_at}
use lavish_fashion.Shipping.{Event, Post}
use lavish_fashion.Shipping.Queue.{next_event, is_eligible, wanted, claim_queued_webhook_event}
use lavish_fashion.Shipping.Drain.{
  Throw, Drained, process_claimed_webhook_event, round, drain_queued_shiprocket_webhook_events,
}
use lavish_fashion.Shipping.Matching.{distinct, distinct_as}
use lavish_fashion.Shipping.Final.{process-ids, event_keeps_final}

claim-world :
    (now stale_after : ℕ) (which : Option ℕ) (p : Post)
    → (claim_queued_webhook_event now stale_after which p).1.world ≡ p.world
unfolding claim_queued_webhook_event
claim-world now stale_after which p =
    elim (Option-cases
      (next_event (λ e. is_eligible now stale_after e && wanted which e) p.events)) [
        | inl nothing ↦ rw (nothing, claim_queued_webhook_event) refl
        | inr (e, next) ↦ rw (next, claim_queued_webhook_event) refl
      ]

-- What a run needs at its start and keeps.
abbrev IsSettled : ℕ → OrderStatus → Post → Type 0
IsSettled k st p = (distinct p.world.loyalty.orders ≡ true) × (status_at k p.world ≡ some st)

module _ (throws : Event → Throw) (setting : Setting) (upper : String → String) (k : ℕ)
    (st : OrderStatus) (final : is_finalized_order_status st ≡ true) where
  event-IsSettled :
      (now : ℕ) (e : Event) (p : Post)
      → IsSettled k st p
      → IsSettled k st (process_claimed_webhook_event throws setting upper now e p).1
  event-IsSettled now e p (apart, at) = (
    distinct_as p.world (process_claimed_webhook_event throws setting upper now e p).1.world
        (process-ids throws setting upper now e p apart) apart,
    event_keeps_final throws setting upper now k st e p apart final at,
  )

  round-IsSettled :
      (now : ℕ) (rest : Post → Drained × Post) (c : Option Event × Post)
      → ((p : Post) → IsSettled k st p → IsSettled k st (rest p).1)
      → IsSettled k st c.1
      → IsSettled k st (round throws setting upper now rest c).1
  unfolding round
  round-IsSettled now rest (none, p) keeps settled = settled
  round-IsSettled now rest (some e, p) keeps settled =
      keeps (process_claimed_webhook_event throws setting upper now e p).1
        (event-IsSettled now e p settled)

  -- A run over the queue, whatever events are in it, leaves an order delivered or cancelled that is
  -- so at its start, if the ids of orders are distinct then, and they stay so.
  pub run_keeps_final :
      (clock : ℕ → ℕ) (start budget stale_after limit : ℕ) (p : Post)
      → distinct p.world.loyalty.orders ≡ true
      → status_at k p.world ≡ some st
      → let p' =
          (drain_queued_shiprocket_webhook_events throws setting upper clock start budget
            stale_after limit p).1 in
        (distinct p'.world.loyalty.orders ≡ true) × (status_at k p'.world ≡ some st)
  unfolding drain_queued_shiprocket_webhook_events
  run_keeps_final clock start budget stale_after zero p apart at = (apart, at)
  run_keeps_final clock start budget stale_after (suc limit) p apart at =
      elim (Bool-cases (leb budget (clock limit - start))) [
        | inl over ↦ rw (over, drain_queued_shiprocket_webhook_events) (apart, at)
        | inr going ↦
            let claimed = claim_queued_webhook_event (clock limit) stale_after none p in
            let same = claim-world (clock limit) stale_after none p in
            rw (going, drain_queued_shiprocket_webhook_events)
              (round-IsSettled (clock limit)
                (drain_queued_shiprocket_webhook_events throws setting upper clock start budget
                  stale_after limit)
                claimed
                (λ q settled.
                  run_keeps_final clock start budget stale_after limit q settled.0 settled.1)
                (
                  ap (λ w. distinct w.loyalty.orders) same ∙ apart,
                  ap (λ w. status_at k w) same ∙ at,
                ))
      ]
