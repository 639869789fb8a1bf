-- ===== src/Verifier.antt =====
-- The verifier of function prototypes (src/runtime/bytecode_verifier.hpp, bytecode_verifier.cpp).
pub mod Checks
pub mod Marking
pub mod Instructions
pub mod Walk
pub mod Starts
pub mod Moves
pub mod Marks
pub mod Operands
pub mod Demands
pub mod Flow
pub mod Safety
pub mod Trees
pub mod Ends
