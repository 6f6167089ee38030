-- ===== src/ModelBridge.antt =====
-- app/model_bridge.py: which state may be transferred between models, the digest of a handoff and the
-- hash of a frozen contract.
pub mod Defs
pub mod Contract
pub mod Transfer
