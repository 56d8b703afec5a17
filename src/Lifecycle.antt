-- ===== src/Lifecycle.antt =====
-- What every request and every job keeps of the orders and of the postings: the effects of the
-- store's calls keep it, so the calls, the handlers and jobs that make them, and any sequence.
pub mod Effects
pub mod Rule
pub mod Calls
pub mod PaymentCalls
pub mod Handlers
pub mod Worker
pub mod Requests
pub mod Orders
pub mod Books
pub mod Payouts
mod Tests
mod ShopTests
mod QueueTests
mod PayoutTests
mod AccountTests
mod WalletTests
