-- ===== src/Expression.antt =====
-- The expressions of the front end: compiler/include/dmd/expression.h, with what the compiler asks
-- of them.
pub mod Op
pub mod Fields
pub mod Tree
pub mod NodeClass
pub mod Walk
pub mod ThrowRules
pub mod CanThrow
pub mod Answers
pub mod SideEffect
pub mod Classes
pub mod OpClass
pub mod Casts
mod Tests
