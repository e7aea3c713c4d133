-- ===== src/Types.antt =====
-- The types of the front end: compiler/include/dmd/mtype.h, with what the compiler asks of them.
pub mod Ty
pub mod Fields
pub mod Tree
pub mod Base
pub mod Flags
mod Tests
