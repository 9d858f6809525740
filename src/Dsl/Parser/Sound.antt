-- ===== src/Dsl/Parser/Sound.antt =====
-- rescan/dsl/parser.py: what parses is well typed, and the descent always ends.
pub mod Yields
pub mod Operands
pub mod Comparisons
pub mod Descent
pub mod Entry
pub mod Forbidden
