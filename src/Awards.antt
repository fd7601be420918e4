-- ===== src/Awards.antt =====
-- spikes/internal-invocation-awards/src: the Invocations that an employer pays internally,
-- with their quotes, budget, credentials, receipts and engine.
pub mod Errors
pub mod Schema
pub mod Quote
pub mod Budget
pub mod Store
pub mod Keys
pub mod Registration
pub mod Outcome
pub mod Credentials
pub mod Invocation
pub mod Receipts
pub mod Ledger
pub mod Counted
pub mod Engine
mod Tests
