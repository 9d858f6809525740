-- ===== src/Rules.antt =====
-- rescan/rules: the rules of a recruiter and the screening of a profile by them.
pub mod Models
pub mod Statutes
pub mod Classifier
pub mod Engine
