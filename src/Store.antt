-- ===== src/Store.antt =====
-- The store calls of store/*.go, one action each. The listing calls that only render pages are left
-- out.
pub mod Orders
pub mod Fulfillment
pub mod Payments
pub mod Webhooks
pub mod Refunds
pub mod Ledger
pub mod Jobs
pub mod Payouts
pub mod Users
pub mod Sessions
pub mod Balances
pub mod Claims
