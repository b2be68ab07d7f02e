-- ===== src/Refund/Router/Laws.antt =====
-- Which gateway id a strategy may give a refund, and what a failing gateway call means.
use lavish_fashion.Prelude.{
  ℕ, ◌≡◌, refl, false, Option, none, some, ok, err, Bool-cases, inl, inr, ◌⊎◌,
}
use lavish_fashion.Refund.Errors.{Thrown, typed, plain_error, razorpay_not_configured}
use lavish_fashion.Refund.Store.{
  Order, Refund, Channel, razorpay, bank_transfer, wallet, GatewayId, gateway, manual,
}
use lavish_fashion.Refund.Router.{
  Gateway, Charge, GatewayKey, GatewayReply, response, failure, gateway_failure, StrategyResult,
  accept, first_some, charge_payment, execute_razorpay, execute,
}

-- The id is an id that the gateway has just given, or the manual one of the document itself.
pub data Given (g : Gateway) (doc : Refund) (id : GatewayId) : Type 0 where
  by_gateway : (c : Charge) (n : ℕ) → g.call c ≡ response (some n) → id ≡ gateway n → Given g doc id
  by_hand : id ≡ manual doc.id → Given g doc id

accept-cases :
    (reply : GatewayReply)
    → ((e : Thrown) × (accept reply ≡ err e))
      ⊎ ((n : ℕ) × (reply ≡ response (some n))
          × (accept reply
              ≡ ok (record { gateway_refund_id = gateway n; skip_pending_transition = false })))
unfolding accept
accept-cases (response none) = inl (_, refl)
accept-cases (response (some n)) = inr (n, refl, refl)
accept-cases (failure s b) = inl (_, refl)
accept-cases (gateway_failure b) = inl (_, refl)

charge-cases :
    (g : Gateway) (doc : Refund) (key : GatewayKey) (payment : Option ℕ)
    → ((e : Thrown) × (charge_payment g doc key payment ≡ err e))
      ⊎ ((s : StrategyResult) × (charge_payment g doc key payment ≡ ok s)
          × Given g doc s.gateway_refund_id)
unfolding charge_payment
charge-cases g doc key none = inl (_, refl)
charge-cases g doc key (some p) =
    let c : Charge = record { payment = p; amount_in_paise = doc.amount_in_paise; key = key } in
    elim (accept-cases (g.call c)) [
      | inl (e, refused) ↦ inl (e, refused)
      | inr (n, reply, accepted) ↦ inr (_, accepted, by_gateway c n reply refl)
    ]

pub execute-cases :
    (g : Gateway) (channel : Channel) (doc : Refund) (order : Order) (key : GatewayKey)
    → ((e : Thrown) × (execute g channel doc order key ≡ err e))
      ⊎ ((s : StrategyResult) × (execute g channel doc order key ≡ ok s)
          × Given g doc s.gateway_refund_id)
unfolding execute execute_razorpay
execute-cases g razorpay doc order key = elim (Bool-cases g.is_configured) [
  | inr off ↦ inl (typed (plain_error 503 razorpay_not_configured), rw off)
  | inl on ↦ simp on (charge-cases g doc key (first_some doc.payment_id order.razorpay_payment_id))
]
execute-cases g bank_transfer doc order key = inr (_, refl, by_hand refl)
execute-cases g wallet doc order key = inl (_, refl)
