-- ===== src/Dsl/Judge.antt =====
-- rescan/dsl/judge.py: the judge behind ASK.
pub mod Votes
pub mod Ask
pub mod Majority
pub mod Memo
pub mod Keeps
