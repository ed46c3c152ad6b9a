-- ===== src/Cil/Code.antt =====
-- crates/cecil-cil/src/code.rs: the identifiers of the CIL instructions.
pub data Code : Type 0 where
  nop break ldarg_0 ldarg_1 ldarg_2 ldarg_3 ldloc_0 ldloc_1 ldloc_2 ldloc_3 stloc_0 : Code
  stloc_1 stloc_2 stloc_3 ldarg_s ldarga_s starg_s ldloc_s ldloca_s stloc_s ldnull : Code
  ldc_i4_m1 ldc_i4_0 ldc_i4_1 ldc_i4_2 ldc_i4_3 ldc_i4_4 ldc_i4_5 ldc_i4_6 ldc_i4_7 : Code
  ldc_i4_8 ldc_i4_s ldc_i4 ldc_i8 ldc_r4 ldc_r8 dup pop jmp call calli ret br_s : Code
  brfalse_s brtrue_s beq_s bge_s bgt_s ble_s blt_s bne_un_s bge_un_s bgt_un_s : Code
  ble_un_s blt_un_s br brfalse brtrue beq bge bgt ble blt bne_un bge_un bgt_un : Code
  ble_un blt_un switch ldind_i1 ldind_u1 ldind_i2 ldind_u2 ldind_i4 ldind_u4 : Code
  ldind_i8 ldind_i ldind_r4 ldind_r8 ldind_ref stind_ref stind_i1 stind_i2 stind_i4 : Code
  stind_i8 stind_r4 stind_r8 add sub mul div div_un rem rem_un and or xor shl shr : Code
  shr_un neg not conv_i1 conv_i2 conv_i4 conv_i8 conv_r4 conv_r8 conv_u4 conv_u8 : Code
  callvirt cpobj ldobj ldstr newobj castclass isinst conv_r_un unbox throw ldfld : Code
  ldflda stfld ldsfld ldsflda stsfld stobj conv_ovf_i1_un conv_ovf_i2_un : Code
  conv_ovf_i4_un conv_ovf_i8_un conv_ovf_u1_un conv_ovf_u2_un conv_ovf_u4_un : Code
  conv_ovf_u8_un conv_ovf_i_un conv_ovf_u_un box newarr ldlen ldelema ldelem_i1 : Code
  ldelem_u1 ldelem_i2 ldelem_u2 ldelem_i4 ldelem_u4 ldelem_i8 ldelem_i ldelem_r4 : Code
  ldelem_r8 ldelem_ref stelem_i stelem_i1 stelem_i2 stelem_i4 stelem_i8 stelem_r4 : Code
  stelem_r8 stelem_ref ldelem_any stelem_any unbox_any conv_ovf_i1 conv_ovf_u1 : Code
  conv_ovf_i2 conv_ovf_u2 conv_ovf_i4 conv_ovf_u4 conv_ovf_i8 conv_ovf_u8 refanyval : Code
  ckfinite mkrefany ldtoken conv_u2 conv_u1 conv_i conv_ovf_i conv_ovf_u add_ovf : Code
  add_ovf_un mul_ovf mul_ovf_un sub_ovf sub_ovf_un endfinally leave leave_s stind_i : Code
  conv_u arglist ceq cgt cgt_un clt clt_un ldftn ldvirtftn ldarg ldarga starg ldloc : Code
  ldloca stloc localloc endfilter unaligned volatile tail initobj constrained cpblk : Code
  initblk no_ rethrow sizeof refanytype readonly : Code
