-- ===== src/Core/TokenType.antt =====
-- crates/cecil-core/src/token.rs: the token types, which leave out the tables that no token names.
pub mod Laws
use cecil_rs.Base.{ℕ, ◌+◌, ◌/◌, ◌^◌, ◌%◌, bit_and, Option, none, some, List, [], ◌∷◌}
use cecil_rs.Core.Error.{Result, expect}
use cecil_rs.Core.TableIndex.{TableIndex, from_u8, match_arms}

pub data TokenType : Type 0 where
  module_ type_ref type_def field method_def param interface_impl member_ref : TokenType
  constant custom_attribute field_marshal decl_security class_layout field_layout : TokenType
  stand_alone_sig event_map event property_map property method_semantics : TokenType
  method_impl module_ref type_spec impl_map field_rva assembly assembly_processor : TokenType
  assembly_os assembly_ref assembly_ref_processor assembly_ref_os file : TokenType
  exported_type manifest_resource nested_class generic_param method_spec : TokenType
  generic_param_constraint : TokenType

unfoldable pub value : TokenType → ℕ
value module_ = 0x0000_0000
value type_ref = 0x0100_0000
value type_def = 0x0200_0000
value field = 0x0400_0000
value method_def = 0x0600_0000
value param = 0x0800_0000
value interface_impl = 0x0900_0000
value member_ref = 0x0a00_0000
value constant = 0x0b00_0000
value custom_attribute = 0x0c00_0000
value field_marshal = 0x0d00_0000
value decl_security = 0x0e00_0000
value class_layout = 0x0f00_0000
value field_layout = 0x1000_0000
value stand_alone_sig = 0x1100_0000
value event_map = 0x1200_0000
value event = 0x1400_0000
value property_map = 0x1500_0000
value property = 0x1700_0000
value method_semantics = 0x1800_0000
value method_impl = 0x1900_0000
value module_ref = 0x1a00_0000
value type_spec = 0x1b00_0000
value impl_map = 0x1c00_0000
value field_rva = 0x1d00_0000
value assembly = 0x2000_0000
value assembly_processor = 0x2100_0000
value assembly_os = 0x2200_0000
value assembly_ref = 0x2300_0000
value assembly_ref_processor = 0x2400_0000
value assembly_ref_os = 0x2500_0000
value file = 0x2600_0000
value exported_type = 0x2700_0000
value manifest_resource = 0x2800_0000
value nested_class = 0x2900_0000
value generic_param = 0x2a00_0000
value method_spec = 0x2b00_0000
value generic_param_constraint = 0x2c00_0000

-- The arms of `from_value`, on the high byte of a token.
abbrev pub from_value_arms : List (ℕ × TokenType)
from_value_arms =
    (0x0100_0000, type_ref)
    ∷ (0x0200_0000, type_def)
    ∷ (0x0400_0000, field)
    ∷ (0x0600_0000, method_def)
    ∷ (0x0800_0000, param)
    ∷ (0x0900_0000, interface_impl)
    ∷ (0x0a00_0000, member_ref)
    ∷ (0x0b00_0000, constant)
    ∷ (0x0c00_0000, custom_attribute)
    ∷ (0x0d00_0000, field_marshal)
    ∷ (0x0e00_0000, decl_security)
    ∷ (0x0f00_0000, class_layout)
    ∷ (0x1000_0000, field_layout)
    ∷ (0x1100_0000, stand_alone_sig)
    ∷ (0x1200_0000, event_map)
    ∷ (0x1400_0000, event)
    ∷ (0x1500_0000, property_map)
    ∷ (0x1700_0000, property)
    ∷ (0x1800_0000, method_semantics)
    ∷ (0x1900_0000, method_impl)
    ∷ (0x1a00_0000, module_ref)
    ∷ (0x1b00_0000, type_spec)
    ∷ (0x1c00_0000, impl_map)
    ∷ (0x1d00_0000, field_rva)
    ∷ (0x2000_0000, assembly)
    ∷ (0x2100_0000, assembly_processor)
    ∷ (0x2200_0000, assembly_os)
    ∷ (0x2300_0000, assembly_ref)
    ∷ (0x2400_0000, assembly_ref_processor)
    ∷ (0x2500_0000, assembly_ref_os)
    ∷ (0x2600_0000, file)
    ∷ (0x2700_0000, exported_type)
    ∷ (0x2800_0000, manifest_resource)
    ∷ (0x2900_0000, nested_class)
    ∷ (0x2a00_0000, generic_param)
    ∷ (0x2b00_0000, method_spec)
    ∷ (0x2c00_0000, generic_param_constraint)
    ∷ []

unfoldable pub from_value : ℕ → Option TokenType
from_value v = match_arms (bit_and v 0xff00_0000) from_value_arms

-- `expect` panics where the byte names no table.
unfoldable pub table : TokenType → Result TableIndex
unfolding value
table t = expect (from_u8 (value t / 2 ^ 24 % 256))
