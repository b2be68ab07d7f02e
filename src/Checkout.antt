-- ===== src/Checkout.antt =====
-- server/services/checkoutPricingService.js. Amounts are decimals in units of 10^-8 of a rupee, ids
-- and coupon codes (in their normal form) are numbers. The children are Items (the items of an order
-- and their subtotal) and Coupon (what a coupon takes off); the total is here.
pub mod Items
pub mod Coupon
pub mod Total
pub mod Parts
pub mod Sum
mod Tests
