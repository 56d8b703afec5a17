-- ===== src/Handlers.antt =====
-- handlers/*.go: what a request does to the tables, and how it is answered.
pub mod Response
pub mod Access
pub mod Answers
pub mod Earnings
pub mod Orders
pub mod Disputes
pub mod Refunds
pub mod Checkout
pub mod Strangers
pub mod Webhooks
pub mod Adjustment
pub mod Payouts
pub mod Session
pub mod Emails
pub mod Auth
pub mod Recovery
pub mod Account
pub mod Amounts
pub mod SellerWallets
