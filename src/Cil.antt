-- ===== src/Cil.antt =====
-- The crate cecil-cil: opcodes, instructions, method bodies and exception clauses.
pub mod Code
pub mod OpCode
pub mod OpCodes
pub mod Instruction
pub mod Variable
pub mod Read
pub mod Write
pub mod RoundTrip
pub mod Safety
pub mod Encoding
pub mod Examples
pub mod Header
pub mod Exceptions
pub mod BodyExamples
pub mod Body
