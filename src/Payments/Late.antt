-- ===== src/Payments/Late.antt =====
-- A payment that is reported after its attempt has failed.
use lavish_fashion.Prelude.{
  ℕ, ◌≡◌, refl, ◌∙◌, false, Option, none, some, update_by, find_by-update_by_self, err,
}
use lavish_fashion.Payments.{
  Attempt, AttemptStatus, attempt_key, Shop, find_attempt, set_attempt, PaymentFields,
}
use lavish_fashion.Payments.Attempts.{
  mark_given_back, release_resources_for_payment_attempt, mark_not_completed, is_order_created,
  mark_payment_attempt_as_not_completed, resources_not_reserved, create_order_from_payment_attempt,
}
use lavish_fashion.Payments.Attempted.{create_lost}

given_back-marks :
    (status : AttemptStatus) (event : Option ℕ) (fields : Option PaymentFields) (a : Attempt)
    → ((mark_not_completed status event fields a (mark_given_back a a)).created_order_id
        ≡ a.created_order_id)
      × ((mark_not_completed status event fields a (mark_given_back a a)).inventory_reserved
          ≡ false)
      × ((mark_not_completed status event fields a (mark_given_back a a)).id ≡ a.id)
given_back-marks status event none a = (refl, refl, refl)
given_back-marks status event (some f) a = (refl, refl, refl)

-- Once an attempt without an order has failed or was cancelled, every payment of it that is reported
-- later is refused, and nothing changes: there is no order for the money.
pub paid_too_late :
    (status : AttemptStatus) (event : Option ℕ) (fields : Option PaymentFields) (a : Attempt)
    (s : Shop) (now id : ℕ) (event' : Option ℕ) (fields' : Option PaymentFields)
    → find_attempt a.id s ≡ some a
    → is_order_created a.status ≡ false
    → a.created_order_id ≡ none
    → let s' = mark_payment_attempt_as_not_completed status event fields a.id s in
      create_order_from_payment_attempt now id event' fields' a.id s'
      ≡ (err resources_not_reserved, s')
unfolding mark_payment_attempt_as_not_completed release_resources_for_payment_attempt
paid_too_late status event fields a s now id event' fields' there going new =
    let released = update_by attempt_key a.id (mark_given_back a) s.attempts in
    let marked = mark_not_completed status event fields a (mark_given_back a a) in
    let (before, free, same) = given_back-marks status event fields a in
    let stored =
      find_by-update_by_self attempt_key a.id (mark_not_completed status event fields a) released
        (mark_given_back a a) same
        (find_by-update_by_self attempt_key a.id (mark_given_back a) s.attempts a refl there) in
    rw (there, mark_payment_attempt_as_not_completed)
      (rw going (
        create_lost now id event' fields' a.id marked
          (set_attempt a.id (mark_not_completed status event fields a)
            (release_resources_for_payment_attempt a s))
          stored (before ∙ new) free))
