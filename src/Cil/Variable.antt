-- ===== src/Cil/Variable.antt =====
-- crates/cecil-cil/src/variable.rs: a local variable of a method body.
use cecil_rs.Base.{ℕ}
use cecil_rs.Core.Token.{Token}

-- The index has 16 bits.
pub record VariableDefinition : Type 0 where
  pub index : ℕ
  pub variable_type : Token

abbrev pub new : ℕ → Token → VariableDefinition
new index variable_type = record { index = index; variable_type = variable_type }
