-- ===== src/Storage.antt =====
-- app/storage.py over the tables that app/state_store.py creates: the hash-chained ledger, the
-- authentication nonces, the contract artifacts and the model-bridge sessions with their handoffs.
pub mod Tables
pub mod Ledger
pub mod Nonces
pub mod Artifacts
pub mod Sessions
pub mod Handoffs
pub mod Mailbox
pub mod Calls
