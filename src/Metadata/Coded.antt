-- ===== src/Metadata/Coded.antt =====
-- crates/cecil-core/src/token.rs, `CodedIndexGroup`, and crates/cecil-metadata/src/tables.rs,
-- `encode_coded` and `decode_coded`: several tables share one column, told apart by the low bits.
pub mod Laws
use Prim.Native.String.{String}
use mathlib.Core.Option
use cecil_rs.Base.{
  ℕ, zero, suc, ◌+◌, ◌-◌, ◌*◌, ◌/◌, ◌%◌, ◌^◌, bit_and, bit_or, Bool, true, false, Option, none,
  some, List, [], ◌∷◌, length, get_elem?, ltb, leb, ◌==◌, if◌then◌else◌,
}
use cecil_rs.Core.Error.{Result, ok, err, argument, ok_or, ◌>>=◌}
use cecil_rs.Core.TableIndex.{TableIndex, value}

pub record CodedIndexGroup : Type 0 where
  pub name : String
  pub tables : List TableIndex
  pub tag_bits : ℕ
  pub first_tag : ℕ

-- The match on the number of tables; its last arm takes none too.
abbrev pub bits_for : ℕ → ℕ
bits_for n =
    if leb 1 n
    then (if leb n 2
        then 1
        else if leb n 4
        then 2
        else if leb n 8
        then 3
        else if leb n 16
        then 4
        else 5)
    else 5

abbrev pub new : String → List TableIndex → CodedIndexGroup
new name tables = record {
  name = name;
  tables = tables;
  tag_bits = bits_for (length tables);
  first_tag = 0;
}

abbrev pub with_layout : String → List TableIndex → ℕ → ℕ → CodedIndexGroup
with_layout name tables tag_bits first_tag = record {
  name = name;
  tables = tables;
  tag_bits = tag_bits;
  first_tag = first_tag;
}

-- The derived equality of tables.
unfoldable pub is_table : TableIndex → TableIndex → Bool
is_table t u = value t == value u

-- `tables.iter().position(..)`
unfoldable pub position : TableIndex → List TableIndex → Option ℕ
unfolding is_table
position t [] = none
position t (u ∷ us) = if is_table u t then some 0 else Option.map suc (position t us)

-- A group has at most 63 tag bits, so that the shift of a `u64` does not overflow; what it moves past
-- the word is lost.
unfoldable pub encode_coded : CodedIndexGroup → TableIndex → ℕ → Result ℕ
unfolding position
encode_coded group table rid = ok_or (position table group.tables) argument >>= λ found.
    if ltb 0x00FF_FFFF rid
    then err argument
    else ok (bit_or (rid * 2 ^ group.tag_bits % 2 ^ 64) (found + group.first_tag))

unfoldable pub decode_tag : CodedIndexGroup → ℕ → ℕ → Option (TableIndex × ℕ)
decode_tag group tag rid =
    if ltb 0x00FF_FFFF rid
    then none
    else if ltb tag group.first_tag
    then none
    else Option.map (λ t. (t, rid)) (get_elem? group.tables (tag - group.first_tag))

-- `checked_shl` and `checked_shr` have no result for a shift of 64 or more.
unfoldable pub decode_coded : CodedIndexGroup → ℕ → Option (TableIndex × ℕ)
unfolding decode_tag
decode_coded group encoded =
    if leb 64 group.tag_bits
    then none
    else decode_tag group (bit_and encoded (2 ^ group.tag_bits - 1)) (encoded / 2 ^ group.tag_bits)

abbrev pub type_def_or_ref : CodedIndexGroup
type_def_or_ref =
    new "TypeDefOrRef" (TableIndex.type_def ∷ TableIndex.type_ref ∷ TableIndex.type_spec ∷ [])

abbrev pub has_constant : CodedIndexGroup
has_constant = new "HasConstant" (TableIndex.field ∷ TableIndex.param ∷ TableIndex.property ∷ [])

abbrev pub has_custom_attribute : CodedIndexGroup
has_custom_attribute = new "HasCustomAttribute" (
    TableIndex.method_def ∷ TableIndex.field ∷ TableIndex.type_ref ∷ TableIndex.type_def
    ∷ TableIndex.param ∷ TableIndex.interface_impl ∷ TableIndex.member_ref ∷ TableIndex.module_
    ∷ TableIndex.decl_security ∷ TableIndex.property ∷ TableIndex.event ∷ TableIndex.stand_alone_sig
    ∷ TableIndex.module_ref ∷ TableIndex.type_spec ∷ TableIndex.assembly ∷ TableIndex.assembly_ref
    ∷ TableIndex.file ∷ TableIndex.exported_type ∷ TableIndex.manifest_resource
    ∷ TableIndex.generic_param ∷ TableIndex.generic_param_constraint ∷ TableIndex.method_spec ∷ [])

abbrev pub has_field_marshal : CodedIndexGroup
has_field_marshal = new "HasFieldMarshal" (TableIndex.field ∷ TableIndex.param ∷ [])

abbrev pub has_decl_security : CodedIndexGroup
has_decl_security =
    new "HasDeclSecurity" (TableIndex.type_def ∷ TableIndex.method_def ∷ TableIndex.assembly ∷ [])

abbrev pub member_ref_parent : CodedIndexGroup
member_ref_parent = new "MemberRefParent" (
    TableIndex.type_def ∷ TableIndex.type_ref ∷ TableIndex.module_ref ∷ TableIndex.method_def
    ∷ TableIndex.type_spec ∷ [])

abbrev pub custom_attribute_type : CodedIndexGroup
custom_attribute_type =
    with_layout "CustomAttributeType" (TableIndex.method_def ∷ TableIndex.member_ref ∷ []) 3 2

abbrev pub has_semantics : CodedIndexGroup
has_semantics = new "HasSemantics" (TableIndex.event ∷ TableIndex.property ∷ [])

abbrev pub method_def_or_ref : CodedIndexGroup
method_def_or_ref = new "MethodDefOrRef" (TableIndex.method_def ∷ TableIndex.member_ref ∷ [])

abbrev pub member_forwarded : CodedIndexGroup
member_forwarded = new "MemberForwarded" (TableIndex.field ∷ TableIndex.method_def ∷ [])

abbrev pub implementation : CodedIndexGroup
implementation =
    new "Implementation" (TableIndex.file ∷ TableIndex.assembly_ref ∷ TableIndex.exported_type ∷ [])

abbrev pub resolution_scope : CodedIndexGroup
resolution_scope = new "ResolutionScope" (
    TableIndex.module_ ∷ TableIndex.module_ref ∷ TableIndex.assembly_ref ∷ TableIndex.type_ref ∷ [])

abbrev pub type_or_method_def : CodedIndexGroup
type_or_method_def = new "TypeOrMethodDef" (TableIndex.type_def ∷ TableIndex.method_def ∷ [])

abbrev pub has_custom_debug_information : CodedIndexGroup
has_custom_debug_information = new "HasCustomDebugInformation" (
    TableIndex.method_def ∷ TableIndex.field ∷ TableIndex.type_ref ∷ TableIndex.type_def
    ∷ TableIndex.param ∷ TableIndex.interface_impl ∷ TableIndex.member_ref ∷ TableIndex.module_
    ∷ TableIndex.decl_security ∷ TableIndex.property ∷ TableIndex.event ∷ TableIndex.stand_alone_sig
    ∷ TableIndex.module_ref ∷ TableIndex.type_spec ∷ TableIndex.assembly ∷ TableIndex.assembly_ref
    ∷ TableIndex.file ∷ TableIndex.exported_type ∷ TableIndex.manifest_resource
    ∷ TableIndex.generic_param ∷ TableIndex.generic_param_constraint ∷ TableIndex.method_spec
    ∷ TableIndex.document ∷ TableIndex.local_scope ∷ TableIndex.local_variable
    ∷ TableIndex.local_constant ∷ TableIndex.import_scope ∷ [])
