-- ===== src/Payments/Webhook.antt =====
-- The requests about payments in server/controllers/orderController.js: the verification by the
-- checkout page, the cancellation of an attempt, and what the webhook of Razorpay calls. Whether a
-- signature is valid is a parameter.
use lavish_fashion.Prelude.{
  ℕ, Bool, true, false, not, ◌&&◌, Option, none, some, List, [], ◌∷◌, Exec, Result, ok, err, ◌==◌,
  if◌then◌else◌,
}
use lavish_fashion.Orders.{Order}
use lavish_fashion.Orders.World.{set_order}
use lavish_fashion.Payments.{
  Attempt, AttemptStatus, attempt_failed, attempt_cancelled, Shop, find_attempt, PaymentFields,
  or_else,
}
use lavish_fashion.Payments.Attempts.{
  is_order_created, PaymentError, mark_payment_attempt_as_not_completed,
  create_order_from_payment_attempt,
}
use lavish_fashion.Payments.Placed.{mark_order_as_paid, mark_order_as_failed}

abbrev pub is_id : Option ℕ → ℕ → Bool
is_id none k = false
is_id (some j) k = j == k

-- `findOne({ razorpayOrderId })`; every attempt is one of Razorpay.
unfoldable pub attempt_for : ℕ → List Attempt → Option Attempt
attempt_for k [] = none
attempt_for k (a ∷ rest) = if is_id a.razorpay_order_id k then some a else attempt_for k rest

unfoldable pub order_for : ℕ → List Order → Option Order
order_for k [] = none
order_for k (o ∷ os) = if is_id o.razorpay_order_id k then some o else order_for k os

-- The same with the user in the query.
unfoldable pub attempt_of_user : ℕ → ℕ → List Attempt → Option Attempt
attempt_of_user user k [] = none
attempt_of_user user k (a ∷ rest) =
    if is_id a.razorpay_order_id k && is_id a.user_id user
    then some a
    else attempt_of_user user k rest

pub data Answer : Type 0 where
  verified already_confirmed invalid_signature order_not_found : Answer
  cancelled_attempt attempt_not_found already_completed already_cancelled : Answer
  server_error : Answer

abbrev pub answer_of : Result PaymentError (Option ℕ) → Answer
answer_of (ok created) = verified
answer_of (err e) = server_error

is_present : Option ℕ → Bool
is_present none = false
is_present (some k) = true

abbrev pub verified_fields : ℕ → ℕ → PaymentFields
verified_fields order_id payment_id = record {
  order_id = order_id;
  payment_id = some payment_id;
  captured_at = none;
}

-- A text of the request that is empty is answered as an invalid signature would be, with 400.
module _ (valid : ℕ → ℕ → ℕ → Bool) where
  unfoldable pub verify_razorpay : ℕ → ℕ → ℕ → ℕ → ℕ → ℕ → Shop → Answer × Shop
  unfolding attempt_of_user order_for is_order_created is_present create_order_from_payment_attempt
      mark_order_as_paid
  verify_razorpay now id user order_id payment_id signature s =
      let fields = verified_fields order_id payment_id in
      if not (valid order_id payment_id signature)
      then (invalid_signature, s)
      else elim (attempt_of_user user order_id s.attempts) [
        | some a ↦
            if is_order_created a.status && is_present a.created_order_id
            then (already_confirmed, s)
            else (let (r, s') =
                  create_order_from_payment_attempt now id (some payment_id) (some fields) a.id s in
                (answer_of r, s'))
        | none ↦ elim (order_for order_id s.world.loyalty.orders) [
          | none ↦ (order_not_found, s)
          | some o ↦
              if not (is_id o.user_id user)
              then (order_not_found, s)
              else if o.payment
              then (already_confirmed, s)
              else (
                verified,
                record s { world = mark_order_as_paid now (some payment_id) fields o s.world },
              )
        ]
      ]

is_cancelled : AttemptStatus → Bool
is_cancelled attempt_cancelled = true
is_cancelled _ = false

unfoldable pub cancel_razorpay_payment_attempt : ℕ → ℕ → Shop → Answer × Shop
unfolding is_order_created is_cancelled mark_payment_attempt_as_not_completed
cancel_razorpay_payment_attempt user k s = elim (find_attempt k s) [
  | none ↦ (attempt_not_found, s)
  | some a ↦
      if not (is_id a.user_id user)
      then (attempt_not_found, s)
      else if is_order_created a.status
      then (already_completed, s)
      else if is_cancelled a.status
      then (already_cancelled, s)
      else (
        cancelled_attempt,
        mark_payment_attempt_as_not_completed attempt_cancelled none none k s,
      )
]

-- The entity of a payment event: the payment and the order of Razorpay.
pub record PaymentEntity : Type 0 where
  pub id : Option ℕ
  pub order_id : Option ℕ

abbrev pub authorize : ℕ → PaymentEntity → Order → Order → Order
authorize now e read o = record o {
  payment_authorized_at = some now;
  razorpay_payment_id = or_else e.id read.razorpay_payment_id;
  gateway_event_id = or_else e.id read.gateway_event_id;
}

unfoldable pub handle_razorpay_payment_authorized : ℕ → PaymentEntity → Shop → Shop
unfolding order_for
handle_razorpay_payment_authorized now e s = elim e.order_id [
  | none ↦ s
  | some k ↦ elim (order_for k s.world.loyalty.orders) [
    | none ↦ s
    | some o ↦
        if o.payment then s else record s { world = set_order o.id (authorize now e o) s.world }
  ]
]

abbrev pub fields_of : ℕ → Option ℕ → PaymentEntity → PaymentFields
fields_of k captured e = record { order_id = k; payment_id = e.id; captured_at = captured }

abbrev pub no_answer : Result PaymentError (Option ℕ) × Shop → Result PaymentError (Unit {0}) × Shop
no_answer (ok created, s) = (ok tt, s)
no_answer (err e, s) = (err e, s)

unfoldable pub handle_razorpay_payment_captured :
    ℕ → ℕ → PaymentEntity → Exec Shop PaymentError (Unit {0})
unfolding attempt_for order_for create_order_from_payment_attempt mark_order_as_paid
handle_razorpay_payment_captured now id e s = elim e.order_id [
  | none ↦ (ok tt, s)
  | some k ↦ elim (attempt_for k s.attempts) [
    | some a ↦
        no_answer
          (create_order_from_payment_attempt now id e.id (some (fields_of k (some now) e)) a.id s)
    | none ↦ elim (order_for k s.world.loyalty.orders) [
      | none ↦ (ok tt, s)
      | some o ↦ (
        ok tt,
        record s { world = mark_order_as_paid now e.id (fields_of k (some now) e) o s.world },
      )
    ]
  ]
]

unfoldable pub handle_razorpay_payment_failed : ℕ → PaymentEntity → Shop → Shop
unfolding attempt_for order_for mark_payment_attempt_as_not_completed mark_order_as_failed
handle_razorpay_payment_failed now e s = elim e.order_id [
  | none ↦ s
  | some k ↦ elim (attempt_for k s.attempts) [
    | some a ↦
        mark_payment_attempt_as_not_completed attempt_failed e.id (some (fields_of k none e)) a.id s
    | none ↦ elim (order_for k s.world.loyalty.orders) [
      | none ↦ s
      | some o ↦ record s { world = mark_order_as_failed now e.id (fields_of k none e) o s.world }
    ]
  ]
]
