-- ===== src/Metadata/Examples.antt =====
-- crates/cecil-metadata/src/tables.rs: coded indices of concrete rows.
use cecil_rs.Base.{List, [], ◌∷◌, Bool, ◌&&◌, true, ◌≡◌, refl, some}
use cecil_rs.Core.Error.{ok}
use cecil_rs.Core.TableIndex.{TableIndex, value}
use cecil_rs.Metadata.Coded.{
  is_table, position, encode_coded, decode_tag, decode_coded, CodedIndexGroup, type_def_or_ref,
  has_constant, has_custom_attribute, has_field_marshal, has_decl_security, member_ref_parent,
  custom_attribute_type, has_semantics, method_def_or_ref, member_forwarded, implementation,
  resolution_scope, type_or_method_def, has_custom_debug_information,
}
use cecil_rs.Metadata.Coded.Laws.{tags_fit, well_formed, encode-decode_coded, decode-encode_coded}

fits : well_formed custom_attribute_type ≡ true
unfolding position is_table value
fits = refl

tags : tags_fit custom_attribute_type ≡ true
tags = refl

encoded : encode_coded custom_attribute_type TableIndex.member_ref 9 ≡ ok 75
unfolding encode_coded position is_table value
encoded = refl

encode-decode_coded_example :
    decode_coded custom_attribute_type 75 ≡ some (TableIndex.member_ref, 9)
encode-decode_coded_example =
    encode-decode_coded custom_attribute_type TableIndex.member_ref 9 tags encoded

decoded : decode_coded custom_attribute_type 75 ≡ some (TableIndex.member_ref, 9)
unfolding decode_coded decode_tag
decoded = refl

decode-encode_coded_example : encode_coded custom_attribute_type TableIndex.member_ref 9 ≡ ok 75
decode-encode_coded_example = decode-encode_coded custom_attribute_type 75 fits decoded

-- The groups of ECMA-335 and of portable debug files.
abbrev every_group : List CodedIndexGroup
every_group =
    type_def_or_ref ∷ has_constant ∷ has_custom_attribute ∷ has_field_marshal ∷ has_decl_security
    ∷ member_ref_parent ∷ custom_attribute_type ∷ has_semantics ∷ method_def_or_ref
    ∷ member_forwarded ∷ implementation ∷ resolution_scope ∷ type_or_method_def
    ∷ has_custom_debug_information ∷ []

abbrev all_well_formed : List CodedIndexGroup → Bool
all_well_formed [] = true
all_well_formed (g ∷ gs) = well_formed g && all_well_formed gs

every_group_test : all_well_formed every_group ≡ true
unfolding position is_table value
every_group_test = refl
