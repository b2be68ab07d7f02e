-- ===== src/Payments/Events.antt =====
-- An event of the webhook is processed at most once.
use lavish_fashion.Prelude.{
  ℕ, ◌≡◌, refl, sym, ◌∙◌, subst, inl, inr, Bool, true, false, ◌&&◌, List, [], ◌∷◌, ◌++◌, any,
  any-append, update_by, Result, ok, err, ◌==◌, ==_refl, Bool-cases, arith,
}
use lavish_fashion.Payments.{Shop}
use lavish_fashion.Payments.Attempts.{PaymentError}
use lavish_fashion.Payments.Intake.{
  WebhookEvent, event_key, Desk, Arrival, new_event, mark_processed, mark_unprocessed, dispatch,
  settle_event, is_handled, duplicate, take_event, handle_razorpay_webhook,
}

abbrev seen : ℕ → List WebhookEvent → Bool
seen k = any (λ e. event_key e == k)

seen-update :
    (k : ℕ) (f : WebhookEvent → WebhookEvent) (es : List WebhookEvent)
    → ((e : WebhookEvent) → (f e).event_id ≡ e.event_id)
    → seen k (update_by event_key k f es) ≡ seen k es
seen-update k f [] same = refl
seen-update k f (e ∷ es) same = ground (arith, same e, seen-update k f es same)

seen_new : (k : ℕ) (es : List WebhookEvent) → seen k (es ++ new_event k ∷ []) ≡ true
seen_new k es = ground (arith, any-append (λ e. event_key e == k) es (new_event k ∷ []), ==_refl k)

settle-seen :
    (k : ℕ) (es : List WebhookEvent) (r : Result PaymentError (Unit {0}) × Shop)
    → seen k es ≡ true
    → seen k (settle_event k es r).1.events ≡ true
settle-seen k es (ok done, s) h = seen-update k mark_processed es (λ e. refl) ∙ h
settle-seen k es (err e, s) h = seen-update k mark_unprocessed es (λ e. refl) ∙ h

take-seen :
    (now id : ℕ) (a : Arrival) (d : Desk) → seen a.event_id (take_event now id a d).1.events ≡ true
unfolding take_event
take-seen now id a d = elim (Bool-cases (seen a.event_id d.events)) [
  | inl before ↦ rw before before
  | inr fresh ↦
      let events = d.events ++ new_event a.event_id ∷ [] in
      elim (Bool-cases (is_handled a.event_type)) [
        | inl handled ↦
            rw (fresh, handled)
              (settle-seen a.event_id events (dispatch now id a.event_type a.entity d.shop)
                (seen_new a.event_id d.events))
        | inr unhandled ↦
            rw (fresh, unhandled)
              (seen-update a.event_id mark_processed events (λ e. refl)
                ∙ seen_new a.event_id d.events)
      ]
]

take_seen-nothing :
    (now id : ℕ) (a : Arrival) (d : Desk)
    → seen a.event_id d.events ≡ true
    → (take_event now id a d).1 ≡ d
unfolding take_event
take_seen-nothing now id a d h = rw h refl

-- The checks of a call that come before its event is stored.
abbrev pub passes : Arrival → Bool
passes a = a.signed && a.configured && a.signature_valid && a.payload_valid

handle_passes :
    (now id : ℕ) (a : Arrival) (d : Desk)
    → passes a ≡ true
    → handle_razorpay_webhook false now id a d ≡ take_event now id a d
unfolding handle_razorpay_webhook
handle_passes now id a d h = rw (signed a h, set_up a h, valid a h, payload a h) refl
  where
    signed : (a : Arrival) → passes a ≡ true → a.signed ≡ true
    signed a h = ground arith

    set_up : (a : Arrival) → passes a ≡ true → a.configured ≡ true
    set_up a h = ground arith

    valid : (a : Arrival) → passes a ≡ true → a.signature_valid ≡ true
    valid a h = ground arith

    payload : (a : Arrival) → passes a ≡ true → a.payload_valid ≡ true
    payload a h = ground arith

-- A call about an event that is stored changes nothing, whatever its checks find.
handle_seen-nothing :
    (down : Bool) (now id : ℕ) (a : Arrival) (d : Desk)
    → seen a.event_id d.events ≡ true
    → (handle_razorpay_webhook down now id a d).1 ≡ d
unfolding handle_razorpay_webhook
handle_seen-nothing down now id a d h = elim (Bool-cases a.signed) [
  | inr unsigned ↦ rw unsigned refl
  | inl signed ↦ elim (Bool-cases a.configured) [
    | inr off ↦ rw (signed, off) refl
    | inl on ↦ elim (Bool-cases a.signature_valid) [
      | inr forged ↦ rw (signed, on, forged) refl
      | inl valid ↦ elim (Bool-cases a.payload_valid) [
        | inr odd ↦ rw (signed, on, valid, odd) refl
        | inl good ↦ elim (Bool-cases down) [
          | inl broken ↦ rw (signed, on, valid, good, broken) refl
          | inr up ↦ rw (signed, on, valid, good, up) (take_seen-nothing now id a d h)
        ]
      ]
    ]
  ]
]

take_seen :
    (now id : ℕ) (a : Arrival) (d : Desk)
    → seen a.event_id d.events ≡ true
    → take_event now id a d ≡ (duplicate, d)
unfolding take_event
take_seen now id a d h = rw h refl

-- After a call of the webhook that passes its checks and whose event can be stored, no further call
-- about the same event changes anything. A repetition of the call is answered as a duplicate, also
-- where the first answer said that the processing failed, so a failed event is never processed.
pub webhook_once :
    (now id : ℕ) (a : Arrival) (d : Desk)
    → passes a ≡ true
    → let d' = (handle_razorpay_webhook false now id a d).1 in
      ((down : Bool) (later other : ℕ) (b : Arrival)
        → b.event_id ≡ a.event_id
        → (handle_razorpay_webhook down later other b d').1 ≡ d')
      × ((later other : ℕ) → handle_razorpay_webhook false later other a d' ≡ (duplicate, d'))
webhook_once now id a d h =
    let first = handle_passes now id a d h in
    let d' = (take_event now id a d).1 in
    let known = take-seen now id a d in
    rw first (
      λ down later other b same.
          handle_seen-nothing down later other b d'
            (subst (λ k. seen k d'.events ≡ true) (sym same) known),
      λ later other. handle_passes later other a d' h ∙ take_seen later other a d' known,
    )
