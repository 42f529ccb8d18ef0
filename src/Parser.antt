-- ===== src/Parser.antt =====
-- services/parser/app: what a source file is made of. Tree parses nothing: it is the syntax trees of
-- the library tree-sitter, as far as the code reads them.
pub mod Tree
pub mod Models
pub mod Python
pub mod Go
pub mod Named
pub mod Edges
pub mod Consumer
mod Examples
