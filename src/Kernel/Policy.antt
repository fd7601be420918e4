-- ===== src/Kernel/Policy.antt =====
-- spikes/pi-wielder/src/kernel/policy-engine.mjs: which spends the customer's policy allows.
pub mod Fields
pub mod Document
pub mod Request
pub mod Projection
pub mod Decision
