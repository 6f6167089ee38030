-- ===== src/Tests.antt =====
-- Concrete inputs at which the theorems of the library apply, and what they say there.
pub mod Ledger
pub mod Gate
pub mod Keys
pub mod Handoffs
pub mod Organism
pub mod Physiology
pub mod Access
pub mod Drift
pub mod Recovery
pub mod SecretPlane
pub mod Feedback
