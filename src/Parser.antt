-- ===== src/Parser.antt =====
-- src/graphql/language/parser.py, run with `no_location=True`
pub mod State
pub mod Combinators
pub mod Values
pub mod Executable
pub mod TypeSystem
pub mod Document
pub mod Reads
pub mod Sound
pub mod Constants
pub mod Forward
pub mod Complete
mod Tests
