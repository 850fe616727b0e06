-- ===== src/Parser/Sound.antt =====
-- src/graphql/language/parser.py: the tokens that each method reads, against the grammar.
pub mod Combinators
pub mod Delimited
pub mod Values
pub mod Arguments
pub mod Types
pub mod Selections
pub mod Variables
pub mod Operations
pub mod Fields
pub mod TypeSystem
pub mod Definitions
pub mod Extensions
pub mod Document
pub mod Ends
pub mod Parse
