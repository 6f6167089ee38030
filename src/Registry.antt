-- ===== src/Registry.antt =====
-- app/federation_key_registry.py: the life of the Ed25519 keys of the federation's authorities.
pub mod Keys
pub mod Table
pub mod Register
pub mod Revoke
pub mod Lineage
pub mod History
