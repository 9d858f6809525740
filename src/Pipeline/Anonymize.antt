-- ===== src/Pipeline/Anonymize.antt =====
-- rescan/pipeline/anonymize.py: the profile without the identity.
pub mod Scrub
pub mod Parts
pub mod Pass
pub mod Closed
pub mod Signs
