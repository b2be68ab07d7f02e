-- ===== src/Shipping/Final.antt =====
-- What a whole event of Shiprocket does to the statuses of orders: the one it is matched with may
-- move, and a final one stays.
use Prim.Native.String.{String}
use lavish_fashion.Prelude.{
  ℕ, ◌≡◌, ◌≢◌, refl, sym, ap, ◌∙◌, subst, inl, inr, true, some, ◌==◌, ==_iff, Bool-cases,
}
use lavish_fashion.Orders.{OrderStatus}
use lavish_fashion.Orders.Cancel.{Setting}
use lavish_fashion.Orders.Status.{is_finalized_order_status}
use lavish_fashion.Orders.Effects.{status_at}
use lavish_fashion.Orders.Updates.{may_move}
use lavish_fashion.Orders.Ids.{ids}
use lavish_fashion.Orders.Absorb.{apart_of, final_stays_put, status_at-of}
use lavish_fashion.Shipping.{processed, failed, Event, Post}
use lavish_fashion.Shipping.Drain.{
  Throw, nowhere, at_start, at_end, in_transition, look_at, break_off, crash, process_thrown,
  process_claimed_webhook_event,
}
use lavish_fashion.Shipping.Matching.{distinct, matched_by_id}
use lavish_fashion.Shipping.Settles.{Settles, Settles-weaken, look-Settles, look-ids, break-Settles}

not_nowhere : (X : Type 0) (n : ℕ) → in_transition n ≡ nowhere → X
not_nowhere X n e = cc

end_not_nowhere : (X : Type 0) → at_end ≡ nowhere → X
end_not_nowhere X e = cc

module _ (setting : Setting) (upper : String → String) (now : ℕ) (e : Event) (p : Post) where
  thrown-Settles :
      (t : Throw)
      → distinct p.world.loyalty.orders ≡ true
      → let r = process_thrown setting upper t now e p in
        (t ≢ nowhere → r.0.outcome ≡ failed)
        × Settles upper e p r.1.world (t ≡ nowhere → r.0.outcome ≡ processed)
  unfolding process_thrown crash
  thrown-Settles nowhere apart = (
    λ h. absurd (h refl),
    Settles-weaken upper e p (look_at setting upper now e e.payload p).1.world
        ((look_at setting upper now e e.payload p).0.outcome ≡ processed) _ (λ c h. c)
        (look-Settles setting upper now e p apart),
  )
  thrown-Settles at_start apart = (λ h. refl, inl (λ j. refl))
  thrown-Settles (in_transition n) apart = (
    λ h. refl,
    Settles-weaken upper e p (break_off setting upper n now e.payload p.world) Unit _
        (λ c h. not_nowhere _ n h) (break-Settles setting upper now e p n apart).0,
  )
  thrown-Settles at_end apart = (
    λ h. refl,
    Settles-weaken upper e p (look_at setting upper now e e.payload p).1.world
        ((look_at setting upper now e e.payload p).0.outcome ≡ processed) _
        (λ c h. end_not_nowhere _ h) (look-Settles setting upper now e p apart),
  )

  thrown-ids :
      (t : Throw)
      → distinct p.world.loyalty.orders ≡ true
      → ids (process_thrown setting upper t now e p).1.world ≡ ids p.world
  unfolding process_thrown crash
  thrown-ids nowhere apart = look-ids setting upper now e p
  thrown-ids at_start apart = refl
  thrown-ids (in_transition n) apart = (break-Settles setting upper now e p n apart).1
  thrown-ids at_end apart = look-ids setting upper now e p

module _ (throws : Event → Throw) (setting : Setting) (upper : String → String) where
  -- With distinct ids of orders, an event that was claimed changes no status, or it moves the order
  -- that it is matched with, and no other one, to the status that its payload names, from a status
  -- that allows it. If nothing throws, an event that moved its order counts as processed. If
  -- something throws, before the write of the status, between the parts that follow it or when the
  -- event is closed, the event counts as failed, also if its order has moved.
  pub process-Settles :
      (now : ℕ) (e : Event) (p : Post)
      → distinct p.world.loyalty.orders ≡ true
      → let r = process_claimed_webhook_event throws setting upper now e p in
        (throws e ≢ nowhere → r.0.outcome ≡ failed)
        × Settles upper e p r.1.world (throws e ≡ nowhere → r.0.outcome ≡ processed)
  unfolding process_claimed_webhook_event
  process-Settles now e p apart = thrown-Settles setting upper now e p (throws e) apart

  pub process-ids :
      (now : ℕ) (e : Event) (p : Post)
      → distinct p.world.loyalty.orders ≡ true
      → ids (process_claimed_webhook_event throws setting upper now e p).1.world ≡ ids p.world
  unfolding process_claimed_webhook_event
  process-ids now e p apart = thrown-ids setting upper now e p (throws e) apart

  -- With distinct ids of orders, an event leaves an order delivered or cancelled that is so.
  pub event_keeps_final :
      (now k : ℕ) (st : OrderStatus) (e : Event) (p : Post)
      → distinct p.world.loyalty.orders ≡ true
      → is_finalized_order_status st ≡ true
      → status_at k p.world ≡ some st
      → status_at k (process_claimed_webhook_event throws setting upper now e p).1.world ≡ some st
  event_keeps_final now k st e p apart final at = elim (process-Settles now e p apart).1 [
    | inl same ↦ same k ∙ at
    | inr (payload, o, status, has, found, says, may, closes, moves, others) ↦
        elim (Bool-cases (o.id == k)) [
          | inr other ↦ others k (apart_of o.id k other) ∙ at
          | inl same ↦
              (let e' = (==_iff o.id k).0 same in
                let was =
                  status_at-of o.id o st p.world
                    (matched_by_id payload o p.world.loyalty.orders apart found)
                    (subst (λ i. status_at i p.world ≡ some st) (sym e') at) in
                subst
                  (λ i.
                    status_at i (process_claimed_webhook_event throws setting upper now e p).1.world
                    ≡ some st)
                  e'
                  (moves
                    ∙ ap some (
                        final_stays_put st status final
                          (subst (λ x. may_move x status ≡ true) was may))))
        ]
  ]
