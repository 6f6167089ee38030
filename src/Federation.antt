-- ===== src/Federation.antt =====
-- The bilateral relations between domains of app/federation_relation.py.
pub mod Relation
pub mod Gate
