-- ===== src/Dsl/Parser.antt =====
-- rescan/dsl/parser.py: the tokens, the recursive descent and the entry points.
pub mod Token
pub mod Operand
pub mod Grammar
pub mod Program
pub mod Typed
pub mod Sound
pub mod Lexer
pub mod Text
