-- ===== src/Pipeline.antt =====
-- rescan/pipeline: the passes over a batch.
pub mod Rank
pub mod Anonymize
pub mod Ensemble
