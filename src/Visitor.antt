-- ===== src/Visitor.antt =====
-- compiler/include/dmd/visitor.h
pub mod Dispatch
pub mod Expressions
pub mod Statements
pub mod Types
pub mod Dsymbols
pub mod Parts
pub mod Reaches
pub mod Hierarchy
pub mod Nodes
pub mod Nearest
mod Tests
