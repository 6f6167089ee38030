-- ===== src/Physiology.antt =====
-- app/physiology.py and app/physiology_recovery.py: the journal of events, the homeostatic controller,
-- the cycle of the physiology engine and the recovery after a restart.
pub mod Journal
pub mod Controller
pub mod Engine
pub mod Recovery
