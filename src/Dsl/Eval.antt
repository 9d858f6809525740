-- ===== src/Dsl/Eval.antt =====
-- rescan/dsl/eval.py: the evaluation of an expression against a profile.
pub mod Leaf
pub mod Records
pub mod Connectives
pub mod Evaluate
pub mod Kleene
pub mod Lazy
pub mod Keeps
pub mod Counts
