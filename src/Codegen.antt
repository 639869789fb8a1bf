-- ===== src/Codegen.antt =====
-- The code generator (src/compiler/codegen), as far as its jump lists.
pub mod Jumps
pub mod Chains
pub mod Joins
