-- ===== src/Metadata/Schema.antt =====
-- crates/cecil-metadata/src/tables.rs, `ColumnKind` and `column_kinds`: the columns of every table.
pub mod Laws
use cecil_rs.Base.{ℕ, Option, some, List, [], ◌∷◌}
use cecil_rs.Core.TableIndex.{TableIndex}
use cecil_rs.Metadata.Coded.{
  CodedIndexGroup, custom_attribute_type, has_constant, has_custom_attribute,
  has_custom_debug_information, has_decl_security, has_field_marshal, has_semantics, implementation,
  member_forwarded, member_ref_parent, method_def_or_ref, resolution_scope, type_def_or_ref,
  type_or_method_def,
}

pub data ColumnKind : Type 0 where
  u8_cell u16_cell u32_cell string_idx guid_idx blob_idx : ColumnKind
  coded : CodedIndexGroup → ColumnKind
  simple : TableIndex → ColumnKind

unfoldable pub column_kinds : TableIndex → Option (List ColumnKind)
column_kinds TableIndex.module_ = some (u16_cell ∷ string_idx ∷ guid_idx ∷ guid_idx ∷ guid_idx ∷ [])
column_kinds TableIndex.type_ref = some (coded resolution_scope ∷ string_idx ∷ string_idx ∷ [])
column_kinds TableIndex.type_def = some (
    u32_cell
    ∷ string_idx
    ∷ string_idx
    ∷ coded type_def_or_ref
    ∷ simple TableIndex.field
    ∷ simple TableIndex.method_def
    ∷ [])
column_kinds TableIndex.field_ptr = some (simple TableIndex.field ∷ [])
column_kinds TableIndex.field = some (u16_cell ∷ string_idx ∷ blob_idx ∷ [])
column_kinds TableIndex.method_ptr = some (simple TableIndex.method_def ∷ [])
column_kinds TableIndex.method_def =
    some (u32_cell ∷ u16_cell ∷ u16_cell ∷ string_idx ∷ blob_idx ∷ simple TableIndex.param ∷ [])
column_kinds TableIndex.param_ptr = some (simple TableIndex.param ∷ [])
column_kinds TableIndex.param = some (u16_cell ∷ u16_cell ∷ string_idx ∷ [])
column_kinds TableIndex.interface_impl =
    some (simple TableIndex.type_def ∷ coded type_def_or_ref ∷ [])
column_kinds TableIndex.member_ref = some (coded member_ref_parent ∷ string_idx ∷ blob_idx ∷ [])
column_kinds TableIndex.constant = some (u8_cell ∷ u8_cell ∷ coded has_constant ∷ blob_idx ∷ [])
column_kinds TableIndex.custom_attribute =
    some (coded has_custom_attribute ∷ coded custom_attribute_type ∷ blob_idx ∷ [])
column_kinds TableIndex.field_marshal = some (coded has_field_marshal ∷ blob_idx ∷ [])
column_kinds TableIndex.decl_security = some (u16_cell ∷ coded has_decl_security ∷ blob_idx ∷ [])
column_kinds TableIndex.class_layout = some (u16_cell ∷ u32_cell ∷ simple TableIndex.type_def ∷ [])
column_kinds TableIndex.field_layout = some (u32_cell ∷ simple TableIndex.field ∷ [])
column_kinds TableIndex.stand_alone_sig = some (blob_idx ∷ [])
column_kinds TableIndex.event_map = some (simple TableIndex.type_def ∷ simple TableIndex.event ∷ [])
column_kinds TableIndex.event_ptr = some (simple TableIndex.event ∷ [])
column_kinds TableIndex.event = some (u16_cell ∷ string_idx ∷ coded type_def_or_ref ∷ [])
column_kinds TableIndex.property_map =
    some (simple TableIndex.type_def ∷ simple TableIndex.property ∷ [])
column_kinds TableIndex.property_ptr = some (simple TableIndex.property ∷ [])
column_kinds TableIndex.property = some (u16_cell ∷ string_idx ∷ blob_idx ∷ [])
column_kinds TableIndex.method_semantics =
    some (u16_cell ∷ simple TableIndex.method_def ∷ coded has_semantics ∷ [])
column_kinds TableIndex.method_impl =
    some (simple TableIndex.type_def ∷ coded method_def_or_ref ∷ coded method_def_or_ref ∷ [])
column_kinds TableIndex.module_ref = some (string_idx ∷ [])
column_kinds TableIndex.type_spec = some (blob_idx ∷ [])
column_kinds TableIndex.impl_map =
    some (u16_cell ∷ coded member_forwarded ∷ string_idx ∷ simple TableIndex.module_ref ∷ [])
column_kinds TableIndex.field_rva = some (u32_cell ∷ simple TableIndex.field ∷ [])
column_kinds TableIndex.enc_log = some (u32_cell ∷ u32_cell ∷ [])
column_kinds TableIndex.enc_map = some (u32_cell ∷ [])
column_kinds TableIndex.assembly = some (
    u32_cell ∷ u16_cell ∷ u16_cell ∷ u16_cell ∷ u16_cell ∷ u32_cell ∷ blob_idx ∷ string_idx
    ∷ string_idx ∷ [])
column_kinds TableIndex.assembly_processor = some (u32_cell ∷ [])
column_kinds TableIndex.assembly_os = some (u32_cell ∷ u32_cell ∷ u32_cell ∷ [])
column_kinds TableIndex.assembly_ref = some (
    u16_cell ∷ u16_cell ∷ u16_cell ∷ u16_cell ∷ u32_cell ∷ blob_idx ∷ string_idx ∷ string_idx
    ∷ blob_idx ∷ [])
column_kinds TableIndex.assembly_ref_processor =
    some (u32_cell ∷ simple TableIndex.assembly_ref ∷ [])
column_kinds TableIndex.assembly_ref_os =
    some (u32_cell ∷ u32_cell ∷ u32_cell ∷ simple TableIndex.assembly_ref ∷ [])
column_kinds TableIndex.file = some (u32_cell ∷ string_idx ∷ blob_idx ∷ [])
column_kinds TableIndex.exported_type =
    some (u32_cell ∷ u32_cell ∷ string_idx ∷ string_idx ∷ coded implementation ∷ [])
column_kinds TableIndex.manifest_resource =
    some (u32_cell ∷ u32_cell ∷ string_idx ∷ coded implementation ∷ [])
column_kinds TableIndex.nested_class =
    some (simple TableIndex.type_def ∷ simple TableIndex.type_def ∷ [])
column_kinds TableIndex.generic_param =
    some (u16_cell ∷ u16_cell ∷ coded type_or_method_def ∷ string_idx ∷ [])
column_kinds TableIndex.method_spec = some (coded method_def_or_ref ∷ blob_idx ∷ [])
column_kinds TableIndex.generic_param_constraint =
    some (simple TableIndex.generic_param ∷ coded type_def_or_ref ∷ [])
column_kinds TableIndex.document = some (blob_idx ∷ guid_idx ∷ blob_idx ∷ guid_idx ∷ [])
column_kinds TableIndex.method_debug_information = some (simple TableIndex.document ∷ blob_idx ∷ [])
column_kinds TableIndex.local_scope = some (
    simple TableIndex.method_def
    ∷ simple TableIndex.import_scope
    ∷ simple TableIndex.local_variable
    ∷ simple TableIndex.local_constant
    ∷ u32_cell
    ∷ u32_cell
    ∷ [])
column_kinds TableIndex.local_variable = some (u16_cell ∷ u16_cell ∷ string_idx ∷ [])
column_kinds TableIndex.local_constant = some (string_idx ∷ blob_idx ∷ [])
column_kinds TableIndex.import_scope = some (simple TableIndex.import_scope ∷ blob_idx ∷ [])
column_kinds TableIndex.state_machine_method =
    some (simple TableIndex.method_def ∷ simple TableIndex.method_def ∷ [])
column_kinds TableIndex.custom_debug_information =
    some (coded has_custom_debug_information ∷ guid_idx ∷ blob_idx ∷ [])
