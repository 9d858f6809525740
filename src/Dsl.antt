-- ===== src/Dsl.antt =====
-- rescan/dsl: the rule language.
pub mod Ast
pub mod Fields
pub mod Verdict
pub mod Eval
pub mod Parser
pub mod Judge
