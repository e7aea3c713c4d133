-- ===== src/Statement.antt =====
-- Statements: the classes of compiler/include/dmd/statement.h, and what compiler/src/dmd computes
-- of them.
pub mod Fields
pub mod Tree
pub mod Queries
pub mod Mask
pub mod ExitMasks
pub mod BlockExit
