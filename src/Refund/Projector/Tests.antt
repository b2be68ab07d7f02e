-- ===== src/Refund/Projector/Tests.antt =====
-- Instances of the theorems on the projection.
use lavish_fashion.Prelude.{◌+◌, ◌≡◌, refl, false, ok, some, sum_by}
use lavish_fashion.Refund.Store.{Order, find_order, refunds_of}
use lavish_fashion.Refund.Held.{held}
use lavish_fashion.Refund.Projector.{project}
use lavish_fashion.Refund.Projector.Laws.{project-held, in_flight}
use lavish_fashion.Refund.Samples.{in_pending, order_with}

project-held_example :
    (o' : Order) × ((project false 9 1 in_pending).0 ≡ ok (some o'))
    × (find_order 1 (project false 9 1 in_pending).1 ≡ some o')
    × (o'.refundable_amount_in_paise
          + o'.refunded_amount_in_paise
          + sum_by in_flight (refunds_of 1 in_pending)
        ≡ held 1 in_pending)
project-held_example = project-held 9 1 (order_with 0) in_pending refl
