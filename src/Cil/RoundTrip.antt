-- ===== src/Cil/RoundTrip.antt =====
-- crates/cecil-cil/src/body.rs, `write_code` against `read_code`.
pub mod Round
pub mod Operand
pub mod Simple
pub mod Switch
pub mod Instruction
pub mod Code
