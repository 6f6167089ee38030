-- ===== src/Organism.antt =====
-- app/organism_loop.py: the governed loop that inherits constraints from rejections.
pub mod State
pub mod Loop
pub mod Evaluate
pub mod Sound
pub mod Promotion
pub mod Authority
