-- ===== src/Lib.antt =====
-- Lavish Fashion: the money, refund, checkout, stock, loyalty and job-lock logic of the server (server/).
--
-- A refund is asked for by an admin, reserved against what its order has left, sent to the gateway
-- (Razorpay) or left for a bank transfer by hand, and then settled, failed or retried. The order
-- shows a projection of its refunds, and an append-only ledger keeps the signed amounts. An order
-- is priced from its items, a coupon and loyalty points, and reserves the stock and the points it
-- takes. Cash on delivery makes an order at once; an online payment makes an attempt, which becomes an
-- order when the gateway reports the payment. An order then moves through its statuses until it is delivered, which rewards its user and
-- the one who referred that user, or cancelled, which gives back what it took. Shiprocket, which
-- carries the parcels, reports events, which are stored and move orders when they are processed. Background jobs, the retry of refunds among them, run under a lock in the database. A
-- request that must not run twice carries an idempotency key.
--
-- Prelude: numbers, tests, lists, results and the state monad `Exec S E A = S → Result E A × S`, in
--   which an error keeps what was written before it.
-- Money: server/utils/paise.util.js.
-- Refund.State: server/utils/refundStateMachine.js. Refund.Errors: server/utils/refundErrors.js.
-- Refund.Store: the collections of server/models/ (orderModel.js, refundModel.js, ledgerEntryModel.js,
--   auditLogModel.js) as one record of lists, and the database calls on them.
-- Refund.Router: server/services/refundRouterService.js and server/services/refundStrategies/.
-- Refund.Ledger: server/services/ledgerService.js.
-- Refund.Projector: server/services/refundProjector.js.
-- Refund.Service: server/services/refundService.js, one child for each operation: Reserve (the
--   reservation and the lazy seeding), Initiate (initiateRefund), Settle (markManualRefundProcessed and
--   processWebhookUpdate), Retry (retry). A function of many awaits is a chain of small definitions,
--   one for each part of its body, in the order of the code.
-- Refund.Held and Refund.Funds: the amount an order has left or held, which the theorems on the
--   service are about, and how each database call changes it.
-- Refund.RetryJob: server/jobs/refundRetryJob.js.
-- Checkout: server/services/checkoutPricingService.js, with the children Items, Coupon and Total;
--   Parts and Sum prove that a price adds up.
-- Idempotency: server/services/idempotencyService.js and server/middleware/refundIdempotency.js.
-- Inventory: server/services/productInventoryService.js.
-- Loyalty: server/services/loyaltyService.js, with the children Tier, Redeem, Points and Rewards (of a
--   delivered order). Loyalty.Writes runs any of its writes one after another.
-- Orders: server/models/orderModel.js and server/services/orderStatusService.js, with the children
--   Cancel, Delivery and Status, and Requests for the two requests of
--   server/controllers/orderController.js that change a status. Kept, Effects, Moves, Final and Ids say
--   what each part does to the status of an order; Updates, Absorb, Once, Rewarded and Books are about
--   whole requests and sequences of them. Broken is a change of a status that breaks off.
-- Payments: server/models/paymentAttemptModel.js, server/models/razorpayWebhookEventModel.js and the
--   payments of server/controllers/orderController.js. Attempts (what becomes of an attempt), Placed
--   (orders that wait for their payment), Webhook (the requests and the handlers), Intake (the webhook
--   itself), Checkout and Online (both ways to place an order, from the price on) model the code;
--   Goods, Settled, Attempted, Late, Events, AtOnce, Twice and Short are about it.
-- Shipping: server/models/shiprocketWebhookEventModel.js and the events of
--   server/services/shiprocketWebhookService.js: Signal (what an event says of which order), Queue
--   (which event is due) and Drain (how events are processed). Matching, Moves, Settles, Final
--   and Runs are about what events do to the status of an order, Retries about the queue.
-- Lock: server/services/distributedLockService.js. Lock.Job: server/jobs/_runLockedJob.js.
--
-- State and errors. `Db` (for refunds), `Store` (for loyalty), `World` (for the status of orders: a
-- `Store`, the products and what was sent), `Shop` (a `World` with the payment attempts), `Post` (a `World` with
-- the events of Shiprocket) and plain lists of products and of locks hold the documents; an operation takes and returns them. A flag of `Faults` for each write of a
-- refund operation says whether that write fails in this call, so a theorem for all flags covers every
-- point of failure. `Date.now()` is a number for a call. Ids, keys and owners are numbers, since they
-- are only compared. A call runs without another one in between, but a locked job, where others may do anything to the
-- locks while it runs; the theorems on locks and on loyalty
-- points are about sequences of calls.
-- The gateway is a parameter: a function from the request to the reply. So are the Shiprocket API, the
-- function that a locked job runs, and the hash of a payload.
-- Numbers of rupees are exact decimals with eight places; the rounding of binary floats below that is
-- left out. Points, stocks and quantities are whole numbers. No loop needs fuel: all of them run over a
-- list, but for the one over the events of Shiprocket, which the code bounds by a number of rounds.
--
-- Not modelled: HTTP handlers, logging, realtime pushes, the user interfaces, the ML service, and the
-- other services of the server.
pub mod Prelude
pub mod Checkout
pub mod Idempotency
pub mod Inventory
pub mod Lock
pub mod Loyalty
pub mod Money
pub mod Orders
pub mod Payments
pub mod Refund
pub mod Shipping
