-- ===== src/Refund/Service/Initiate/Reseed.antt =====
-- `initiateRefund` on an order whose refundable amount is used up while nothing is settled yet: the
-- lazy seeding of `reserveRefundableAmount` fills the amount again.
use lavish_fashion.Refund.Service.Initiate.{Initiate}
