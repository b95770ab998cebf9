-- ===== src/Pipeline.antt =====
-- app/services/pipeline.py: landing, promotion to staging, and the steward's review, one child each.
pub mod Landing
pub mod Promotion
pub mod Review
