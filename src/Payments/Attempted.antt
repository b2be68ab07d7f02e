-- ===== src/Payments/Attempted.antt =====
-- What a payment makes of its attempt: an order once, and none once the attempt has failed.
use lavish_fashion.Prelude.{
  ℕ, ◌≡◌, refl, sym, ◌∙◌, subst, inl, inr, true, false, Option, none, some, List, [], ◌∷◌,
  find_by-key, ok, err, Bool-cases, Option-cases,
}
use lavish_fashion.Orders.{Order}
use lavish_fashion.Orders.World.{find_order}
use lavish_fashion.Payments.{Attempt, AttemptStatus, attempt_key, Shop, find_attempt, PaymentFields}
use lavish_fashion.Payments.Attempts.{
  mark_payment_attempt_as_not_completed, create_order, again, resources_not_reserved,
  create_order_from_payment_attempt,
}
use lavish_fashion.Payments.Goods.{goods, not_completed-goods}
use lavish_fashion.Payments.Settled.{create-goods}

-- The branches of a creation.
create_gone :
    (now id : ℕ) (event : Option ℕ) (fields : Option PaymentFields) (k : ℕ) (s : Shop)
    → find_attempt k s ≡ none
    → create_order_from_payment_attempt now id event fields k s ≡ (ok none, s)
unfolding create_order_from_payment_attempt
create_gone now id event fields k s missing = rw (missing, create_order_from_payment_attempt) refl

create_again :
    (now id : ℕ) (event : Option ℕ) (fields : Option PaymentFields) (k j : ℕ) (a : Attempt)
    (s : Shop)
    → find_attempt k s ≡ some a
    → a.created_order_id ≡ some j
    → create_order_from_payment_attempt now id event fields k s
      ≡ (ok (again j (find_order j s.world) s).0, (again j (find_order j s.world) s).1)
unfolding create_order_from_payment_attempt
create_again now id event fields k j a s there before =
    rw (there, create_order_from_payment_attempt) (rw before refl)

pub create_lost :
    (now id : ℕ) (event : Option ℕ) (fields : Option PaymentFields) (k : ℕ) (a : Attempt) (s : Shop)
    → find_attempt k s ≡ some a
    → a.created_order_id ≡ none
    → a.inventory_reserved ≡ false
    → create_order_from_payment_attempt now id event fields k s ≡ (err resources_not_reserved, s)
unfolding create_order_from_payment_attempt
create_lost now id event fields k a s there before free =
    rw (there, create_order_from_payment_attempt) (rw (before, free) refl)

pub create_new :
    (now id : ℕ) (event : Option ℕ) (fields : Option PaymentFields) (k : ℕ) (a : Attempt) (s : Shop)
    → find_attempt k s ≡ some a
    → a.created_order_id ≡ none
    → a.inventory_reserved ≡ true
    → create_order_from_payment_attempt now id event fields k s
      ≡ (ok (some id), create_order now id event fields a s)
unfolding create_order_from_payment_attempt
create_new now id event fields k a s there before held =
    rw (there, create_order_from_payment_attempt) (rw (before, held) refl)

again-goods : (j k : ℕ) (o : Option Order) (s : Shop) → goods k (again j o s).1 ≡ goods k s
unfolding again
again-goods j k none s = refl
again-goods j k (some o) s = refl

pub from_attempt-goods :
    (now id : ℕ) (event : Option ℕ) (fields : Option PaymentFields) (j k : ℕ) (s : Shop)
    → goods k (create_order_from_payment_attempt now id event fields j s).1 ≡ goods k s
from_attempt-goods now id event fields j k s = elim (Option-cases (find_attempt j s)) [
  | inl missing ↦ rw (create_gone now id event fields j s missing) refl
  | inr (a, there) ↦ elim (Option-cases a.created_order_id) [
    | inr (i, before) ↦
        rw (create_again now id event fields j i a s there before)
          (again-goods i k (find_order i s.world) s)
    | inl new ↦ elim (Bool-cases a.inventory_reserved) [
      | inr free ↦ rw (create_lost now id event fields j a s there new free) refl
      | inl held ↦ rw (create_new now id event fields j a s there new held) (
          create-goods now id event fields a k s
            (subst (λ i. find_attempt i s ≡ some a)
              (sym (find_by-key attempt_key j s.attempts a there)) there)
            held)
    ]
  ]
]

-- What can happen to attempts: one fails or is cancelled, or one is paid.
pub data AttemptEvent : Type 0 where
  falls_through : AttemptStatus → Option ℕ → Option PaymentFields → ℕ → AttemptEvent
  is_paid : ℕ → ℕ → Option ℕ → Option PaymentFields → ℕ → AttemptEvent

pub happens : AttemptEvent → Shop → Shop
unfolding mark_payment_attempt_as_not_completed create_order_from_payment_attempt
happens (falls_through status event fields k) s =
    mark_payment_attempt_as_not_completed status event fields k s
happens (is_paid now id event fields k) s =
    (create_order_from_payment_attempt now id event fields k s).1

pub happen : List AttemptEvent → Shop → Shop
unfolding happens
happen [] s = s
happen (e ∷ es) s = happen es (happens e s)

happens-goods : (k : ℕ) (e : AttemptEvent) (s : Shop) → goods k (happens e s) ≡ goods k s
unfolding happens
happens-goods k (falls_through status event fields j) s =
    not_completed-goods status event fields j k s
happens-goods k (is_paid now id event fields j) s = from_attempt-goods now id event fields j k s

-- Whatever happens to payment attempts, in any order and as often as it likes (failures,
-- cancellations and payments, also of attempts that failed or were paid before), of every product
-- as much is in stock or held by an attempt or an order afterwards as was before.
pub happen-goods : (k : ℕ) (es : List AttemptEvent) (s : Shop) → goods k (happen es s) ≡ goods k s
unfolding happen
happen-goods k [] s = refl
happen-goods k (e ∷ es) s = happen-goods k es (happens e s) ∙ happens-goods k e s
