-- ===== src/Core/TableIndex.antt =====
-- crates/cecil-core/src/token.rs: the identifiers of the metadata tables and their bytes.
pub mod Laws
use cecil_rs.Base.{ℕ, ◌+◌, Bool, Option, none, some, List, [], ◌∷◌, ◌==◌, if◌then◌else◌}
use Prim.Native.String.{String}

pub data TableIndex : Type 0 where
  module_ type_ref type_def field_ptr field method_ptr method_def param_ptr param : TableIndex
  interface_impl member_ref constant custom_attribute field_marshal decl_security : TableIndex
  class_layout field_layout stand_alone_sig event_map event_ptr event property_map : TableIndex
  property_ptr property method_semantics method_impl module_ref type_spec impl_map : TableIndex
  field_rva enc_log enc_map assembly assembly_processor assembly_os assembly_ref : TableIndex
  assembly_ref_processor assembly_ref_os file exported_type manifest_resource : TableIndex
  nested_class generic_param method_spec generic_param_constraint document : TableIndex
  method_debug_information local_scope local_variable local_constant import_scope : TableIndex
  state_machine_method custom_debug_information : TableIndex

-- `table as u8`, the discriminant.
unfoldable pub value : TableIndex → ℕ
value module_ = 0x00
value type_ref = 0x01
value type_def = 0x02
value field_ptr = 0x03
value field = 0x04
value method_ptr = 0x05
value method_def = 0x06
value param_ptr = 0x07
value param = 0x08
value interface_impl = 0x09
value member_ref = 0x0A
value constant = 0x0B
value custom_attribute = 0x0C
value field_marshal = 0x0D
value decl_security = 0x0E
value class_layout = 0x0F
value field_layout = 0x10
value stand_alone_sig = 0x11
value event_map = 0x12
value event_ptr = 0x13
value event = 0x14
value property_map = 0x15
value property_ptr = 0x16
value property = 0x17
value method_semantics = 0x18
value method_impl = 0x19
value module_ref = 0x1A
value type_spec = 0x1B
value impl_map = 0x1C
value field_rva = 0x1D
value enc_log = 0x1E
value enc_map = 0x1F
value assembly = 0x20
value assembly_processor = 0x21
value assembly_os = 0x22
value assembly_ref = 0x23
value assembly_ref_processor = 0x24
value assembly_ref_os = 0x25
value file = 0x26
value exported_type = 0x27
value manifest_resource = 0x28
value nested_class = 0x29
value generic_param = 0x2A
value method_spec = 0x2B
value generic_param_constraint = 0x2C
value document = 0x30
value method_debug_information = 0x31
value local_scope = 0x32
value local_variable = 0x33
value local_constant = 0x34
value import_scope = 0x35
value state_machine_method = 0x36
value custom_debug_information = 0x37

-- A `match` on a number: the first arm with that number.
abbrev pub match_arms {ℓ} : {A : Type ℓ} → ℕ → List (ℕ × A) → Option A
match_arms v [] = none
match_arms v ((k, a) ∷ arms) = if k == v then some a else match_arms v arms

-- The arms of `from_u8`; any other byte is `None`.
abbrev pub from_u8_arms : List (ℕ × TableIndex)
from_u8_arms =
    (0x00, module_)
    ∷ (0x01, type_ref)
    ∷ (0x02, type_def)
    ∷ (0x03, field_ptr)
    ∷ (0x04, field)
    ∷ (0x05, method_ptr)
    ∷ (0x06, method_def)
    ∷ (0x07, param_ptr)
    ∷ (0x08, param)
    ∷ (0x09, interface_impl)
    ∷ (0x0A, member_ref)
    ∷ (0x0B, constant)
    ∷ (0x0C, custom_attribute)
    ∷ (0x0D, field_marshal)
    ∷ (0x0E, decl_security)
    ∷ (0x0F, class_layout)
    ∷ (0x10, field_layout)
    ∷ (0x11, stand_alone_sig)
    ∷ (0x12, event_map)
    ∷ (0x13, event_ptr)
    ∷ (0x14, event)
    ∷ (0x15, property_map)
    ∷ (0x16, property_ptr)
    ∷ (0x17, property)
    ∷ (0x18, method_semantics)
    ∷ (0x19, method_impl)
    ∷ (0x1A, module_ref)
    ∷ (0x1B, type_spec)
    ∷ (0x1C, impl_map)
    ∷ (0x1D, field_rva)
    ∷ (0x1E, enc_log)
    ∷ (0x1F, enc_map)
    ∷ (0x20, assembly)
    ∷ (0x21, assembly_processor)
    ∷ (0x22, assembly_os)
    ∷ (0x23, assembly_ref)
    ∷ (0x24, assembly_ref_processor)
    ∷ (0x25, assembly_ref_os)
    ∷ (0x26, file)
    ∷ (0x27, exported_type)
    ∷ (0x28, manifest_resource)
    ∷ (0x29, nested_class)
    ∷ (0x2A, generic_param)
    ∷ (0x2B, method_spec)
    ∷ (0x2C, generic_param_constraint)
    ∷ (0x30, document)
    ∷ (0x31, method_debug_information)
    ∷ (0x32, local_scope)
    ∷ (0x33, local_variable)
    ∷ (0x34, local_constant)
    ∷ (0x35, import_scope)
    ∷ (0x36, state_machine_method)
    ∷ (0x37, custom_debug_information)
    ∷ []

unfoldable pub from_u8 : ℕ → Option TableIndex
from_u8 v = match_arms v from_u8_arms

unfoldable pub name : TableIndex → String
name module_ = "Module"
name type_ref = "TypeRef"
name type_def = "TypeDef"
name field_ptr = "FieldPtr"
name field = "Field"
name method_ptr = "MethodPtr"
name method_def = "MethodDef"
name param_ptr = "ParamPtr"
name param = "Param"
name interface_impl = "InterfaceImpl"
name member_ref = "MemberRef"
name constant = "Constant"
name custom_attribute = "CustomAttribute"
name field_marshal = "FieldMarshal"
name decl_security = "DeclSecurity"
name class_layout = "ClassLayout"
name field_layout = "FieldLayout"
name stand_alone_sig = "StandAloneSig"
name event_map = "EventMap"
name event_ptr = "EventPtr"
name event = "Event"
name property_map = "PropertyMap"
name property_ptr = "PropertyPtr"
name property = "Property"
name method_semantics = "MethodSemantics"
name method_impl = "MethodImpl"
name module_ref = "ModuleRef"
name type_spec = "TypeSpec"
name impl_map = "ImplMap"
name field_rva = "FieldRVA"
name enc_log = "EncLog"
name enc_map = "EncMap"
name assembly = "Assembly"
name assembly_processor = "AssemblyProcessor"
name assembly_os = "AssemblyOS"
name assembly_ref = "AssemblyRef"
name assembly_ref_processor = "AssemblyRefProcessor"
name assembly_ref_os = "AssemblyRefOS"
name file = "File"
name exported_type = "ExportedType"
name manifest_resource = "ManifestResource"
name nested_class = "NestedClass"
name generic_param = "GenericParam"
name method_spec = "MethodSpec"
name generic_param_constraint = "GenericParamConstraint"
name document = "Document"
name method_debug_information = "MethodDebugInformation"
name local_scope = "LocalScope"
name local_variable = "LocalVariable"
name local_constant = "LocalConstant"
name import_scope = "ImportScope"
name state_machine_method = "StateMachineMethod"
name custom_debug_information = "CustomDebugInformation"
