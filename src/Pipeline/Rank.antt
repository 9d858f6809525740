-- ===== src/Pipeline/Rank.antt =====
-- rescan/pipeline/rank.py: criteria, scores, the order, the borderline band and the shortlist.
pub mod Criteria
pub mod Score
pub mod Order
pub mod Select
pub mod Settled
pub mod Shortlists
