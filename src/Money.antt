-- ===== src/Money.antt =====
-- prototype/atomic-money.mjs: amounts in atomic units, their text, and how a gross amount is split.
pub mod Input
pub mod Weights
pub mod Display
pub mod Royalty
pub mod Gross
mod Tests
