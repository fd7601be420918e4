-- ===== src/Kernel.antt =====
-- spikes/pi-wielder/src/kernel: the Wallet Kernel's canonical data and its spending policy.
pub mod Errors
pub mod Patterns
pub mod Canonical
pub mod Platform
pub mod Policy
mod Tests
