-- ===== src/Declaration.antt =====
-- Declarations: the storage classes and the flags of compiler/include/dmd/declaration.h, and what the
-- parser and the semantic analysis do with them.
pub mod Storage
pub mod Parse
pub mod Scopes
pub mod FuncAttrs
pub mod Bits
pub mod Queries
mod Tests
