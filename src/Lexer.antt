-- ===== src/Lexer.antt =====
-- src/graphql/language/lexer.py
pub mod Token
pub mod Scan
pub mod Numbers
pub mod Escapes
pub mod Strings
pub mod Blocks
pub mod Next
pub mod Bounds
pub mod Order
pub mod Names
mod Tests
