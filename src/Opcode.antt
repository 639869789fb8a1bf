-- ===== src/Opcode.antt =====
-- Operation codes and the 32-bit instruction words (src/compiler/opcode.hpp, opcode.cpp).
-- `Metadata` has the enum and the table of properties, `Instruction` the encoding, `Fields` the
-- arithmetic of its fields, `RoundTrip` its laws.
pub mod Metadata
pub mod Instruction
pub mod Fields
pub mod RoundTrip
