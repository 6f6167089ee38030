-- ===== src/Feedback.antt =====
-- app/physiology_effect_feedback.py: what an effect leaves for the cycles behind it.
pub mod State
pub mod Loop
pub mod Effect
pub mod Tick
pub mod Saved
pub mod Gated
pub mod Streak
pub mod Recorded
pub mod Restart
