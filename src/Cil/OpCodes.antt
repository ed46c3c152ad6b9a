-- ===== src/Cil/OpCodes.antt =====
-- crates/cecil-cil/src/opcodes.rs: the descriptor of each instruction, a constant of the source
-- named after it, and the two decode tables.
pub mod Laws
use cecil_rs.Base.{ℕ, ◌≤◌, Bool, Option, none, some, List, [], ◌∷◌, map, ltb, ◌==◌, if◌then◌else◌}
use mathlib.Core.List.{foldl}
use cecil_rs.Cil.Code.{Code}
use cecil_rs.Cil.OpCode
use cecil_rs.Cil.OpCode.{
  OpCode, inline_arg, inline_br_target, inline_field, inline_i, inline_i8, inline_method,
  inline_none, inline_r, inline_sig, inline_string, inline_switch, inline_tok, inline_type,
  inline_var, short_inline_arg, short_inline_br_target, short_inline_i, short_inline_r,
  short_inline_var,
}

unfoldable pub opcode_of : Code → OpCode
unfolding OpCode.new
opcode_of Code.nop = OpCode.new Code.nop "nop" 0xFF 0x00 inline_none
opcode_of Code.break = OpCode.new Code.break "break" 0xFF 0x01 inline_none
opcode_of Code.ldarg_0 = OpCode.new Code.ldarg_0 "ldarg.0" 0xFF 0x02 inline_none
opcode_of Code.ldarg_1 = OpCode.new Code.ldarg_1 "ldarg.1" 0xFF 0x03 inline_none
opcode_of Code.ldarg_2 = OpCode.new Code.ldarg_2 "ldarg.2" 0xFF 0x04 inline_none
opcode_of Code.ldarg_3 = OpCode.new Code.ldarg_3 "ldarg.3" 0xFF 0x05 inline_none
opcode_of Code.ldloc_0 = OpCode.new Code.ldloc_0 "ldloc.0" 0xFF 0x06 inline_none
opcode_of Code.ldloc_1 = OpCode.new Code.ldloc_1 "ldloc.1" 0xFF 0x07 inline_none
opcode_of Code.ldloc_2 = OpCode.new Code.ldloc_2 "ldloc.2" 0xFF 0x08 inline_none
opcode_of Code.ldloc_3 = OpCode.new Code.ldloc_3 "ldloc.3" 0xFF 0x09 inline_none
opcode_of Code.stloc_0 = OpCode.new Code.stloc_0 "stloc.0" 0xFF 0x0a inline_none
opcode_of Code.stloc_1 = OpCode.new Code.stloc_1 "stloc.1" 0xFF 0x0b inline_none
opcode_of Code.stloc_2 = OpCode.new Code.stloc_2 "stloc.2" 0xFF 0x0c inline_none
opcode_of Code.stloc_3 = OpCode.new Code.stloc_3 "stloc.3" 0xFF 0x0d inline_none
opcode_of Code.ldarg_s = OpCode.new Code.ldarg_s "ldarg.s" 0xFF 0x0e short_inline_arg
opcode_of Code.ldarga_s = OpCode.new Code.ldarga_s "ldarga.s" 0xFF 0x0f short_inline_arg
opcode_of Code.starg_s = OpCode.new Code.starg_s "starg.s" 0xFF 0x10 short_inline_arg
opcode_of Code.ldloc_s = OpCode.new Code.ldloc_s "ldloc.s" 0xFF 0x11 short_inline_var
opcode_of Code.ldloca_s = OpCode.new Code.ldloca_s "ldloca.s" 0xFF 0x12 short_inline_var
opcode_of Code.stloc_s = OpCode.new Code.stloc_s "stloc.s" 0xFF 0x13 short_inline_var
opcode_of Code.ldnull = OpCode.new Code.ldnull "ldnull" 0xFF 0x14 inline_none
opcode_of Code.ldc_i4_m1 = OpCode.new Code.ldc_i4_m1 "ldc.i4.m1" 0xFF 0x15 inline_none
opcode_of Code.ldc_i4_0 = OpCode.new Code.ldc_i4_0 "ldc.i4.0" 0xFF 0x16 inline_none
opcode_of Code.ldc_i4_1 = OpCode.new Code.ldc_i4_1 "ldc.i4.1" 0xFF 0x17 inline_none
opcode_of Code.ldc_i4_2 = OpCode.new Code.ldc_i4_2 "ldc.i4.2" 0xFF 0x18 inline_none
opcode_of Code.ldc_i4_3 = OpCode.new Code.ldc_i4_3 "ldc.i4.3" 0xFF 0x19 inline_none
opcode_of Code.ldc_i4_4 = OpCode.new Code.ldc_i4_4 "ldc.i4.4" 0xFF 0x1a inline_none
opcode_of Code.ldc_i4_5 = OpCode.new Code.ldc_i4_5 "ldc.i4.5" 0xFF 0x1b inline_none
opcode_of Code.ldc_i4_6 = OpCode.new Code.ldc_i4_6 "ldc.i4.6" 0xFF 0x1c inline_none
opcode_of Code.ldc_i4_7 = OpCode.new Code.ldc_i4_7 "ldc.i4.7" 0xFF 0x1d inline_none
opcode_of Code.ldc_i4_8 = OpCode.new Code.ldc_i4_8 "ldc.i4.8" 0xFF 0x1e inline_none
opcode_of Code.ldc_i4_s = OpCode.new Code.ldc_i4_s "ldc.i4.s" 0xFF 0x1f short_inline_i
opcode_of Code.ldc_i4 = OpCode.new Code.ldc_i4 "ldc.i4" 0xFF 0x20 inline_i
opcode_of Code.ldc_i8 = OpCode.new Code.ldc_i8 "ldc.i8" 0xFF 0x21 inline_i8
opcode_of Code.ldc_r4 = OpCode.new Code.ldc_r4 "ldc.r4" 0xFF 0x22 short_inline_r
opcode_of Code.ldc_r8 = OpCode.new Code.ldc_r8 "ldc.r8" 0xFF 0x23 inline_r
opcode_of Code.dup = OpCode.new Code.dup "dup" 0xFF 0x25 inline_none
opcode_of Code.pop = OpCode.new Code.pop "pop" 0xFF 0x26 inline_none
opcode_of Code.jmp = OpCode.new Code.jmp "jmp" 0xFF 0x27 inline_method
opcode_of Code.call = OpCode.new Code.call "call" 0xFF 0x28 inline_method
opcode_of Code.calli = OpCode.new Code.calli "calli" 0xFF 0x29 inline_sig
opcode_of Code.ret = OpCode.new Code.ret "ret" 0xFF 0x2a inline_none
opcode_of Code.br_s = OpCode.new Code.br_s "br.s" 0xFF 0x2b short_inline_br_target
opcode_of Code.brfalse_s = OpCode.new Code.brfalse_s "brfalse.s" 0xFF 0x2c short_inline_br_target
opcode_of Code.brtrue_s = OpCode.new Code.brtrue_s "brtrue.s" 0xFF 0x2d short_inline_br_target
opcode_of Code.beq_s = OpCode.new Code.beq_s "beq.s" 0xFF 0x2e short_inline_br_target
opcode_of Code.bge_s = OpCode.new Code.bge_s "bge.s" 0xFF 0x2f short_inline_br_target
opcode_of Code.bgt_s = OpCode.new Code.bgt_s "bgt.s" 0xFF 0x30 short_inline_br_target
opcode_of Code.ble_s = OpCode.new Code.ble_s "ble.s" 0xFF 0x31 short_inline_br_target
opcode_of Code.blt_s = OpCode.new Code.blt_s "blt.s" 0xFF 0x32 short_inline_br_target
opcode_of Code.bne_un_s = OpCode.new Code.bne_un_s "bne.un.s" 0xFF 0x33 short_inline_br_target
opcode_of Code.bge_un_s = OpCode.new Code.bge_un_s "bge.un.s" 0xFF 0x34 short_inline_br_target
opcode_of Code.bgt_un_s = OpCode.new Code.bgt_un_s "bgt.un.s" 0xFF 0x35 short_inline_br_target
opcode_of Code.ble_un_s = OpCode.new Code.ble_un_s "ble.un.s" 0xFF 0x36 short_inline_br_target
opcode_of Code.blt_un_s = OpCode.new Code.blt_un_s "blt.un.s" 0xFF 0x37 short_inline_br_target
opcode_of Code.br = OpCode.new Code.br "br" 0xFF 0x38 inline_br_target
opcode_of Code.brfalse = OpCode.new Code.brfalse "brfalse" 0xFF 0x39 inline_br_target
opcode_of Code.brtrue = OpCode.new Code.brtrue "brtrue" 0xFF 0x3a inline_br_target
opcode_of Code.beq = OpCode.new Code.beq "beq" 0xFF 0x3b inline_br_target
opcode_of Code.bge = OpCode.new Code.bge "bge" 0xFF 0x3c inline_br_target
opcode_of Code.bgt = OpCode.new Code.bgt "bgt" 0xFF 0x3d inline_br_target
opcode_of Code.ble = OpCode.new Code.ble "ble" 0xFF 0x3e inline_br_target
opcode_of Code.blt = OpCode.new Code.blt "blt" 0xFF 0x3f inline_br_target
opcode_of Code.bne_un = OpCode.new Code.bne_un "bne.un" 0xFF 0x40 inline_br_target
opcode_of Code.bge_un = OpCode.new Code.bge_un "bge.un" 0xFF 0x41 inline_br_target
opcode_of Code.bgt_un = OpCode.new Code.bgt_un "bgt.un" 0xFF 0x42 inline_br_target
opcode_of Code.ble_un = OpCode.new Code.ble_un "ble.un" 0xFF 0x43 inline_br_target
opcode_of Code.blt_un = OpCode.new Code.blt_un "blt.un" 0xFF 0x44 inline_br_target
opcode_of Code.switch = OpCode.new Code.switch "switch" 0xFF 0x45 inline_switch
opcode_of Code.ldind_i1 = OpCode.new Code.ldind_i1 "ldind.i1" 0xFF 0x46 inline_none
opcode_of Code.ldind_u1 = OpCode.new Code.ldind_u1 "ldind.u1" 0xFF 0x47 inline_none
opcode_of Code.ldind_i2 = OpCode.new Code.ldind_i2 "ldind.i2" 0xFF 0x48 inline_none
opcode_of Code.ldind_u2 = OpCode.new Code.ldind_u2 "ldind.u2" 0xFF 0x49 inline_none
opcode_of Code.ldind_i4 = OpCode.new Code.ldind_i4 "ldind.i4" 0xFF 0x4a inline_none
opcode_of Code.ldind_u4 = OpCode.new Code.ldind_u4 "ldind.u4" 0xFF 0x4b inline_none
opcode_of Code.ldind_i8 = OpCode.new Code.ldind_i8 "ldind.i8" 0xFF 0x4c inline_none
opcode_of Code.ldind_i = OpCode.new Code.ldind_i "ldind.i" 0xFF 0x4d inline_none
opcode_of Code.ldind_r4 = OpCode.new Code.ldind_r4 "ldind.r4" 0xFF 0x4e inline_none
opcode_of Code.ldind_r8 = OpCode.new Code.ldind_r8 "ldind.r8" 0xFF 0x4f inline_none
opcode_of Code.ldind_ref = OpCode.new Code.ldind_ref "ldind.ref" 0xFF 0x50 inline_none
opcode_of Code.stind_ref = OpCode.new Code.stind_ref "stind.ref" 0xFF 0x51 inline_none
opcode_of Code.stind_i1 = OpCode.new Code.stind_i1 "stind.i1" 0xFF 0x52 inline_none
opcode_of Code.stind_i2 = OpCode.new Code.stind_i2 "stind.i2" 0xFF 0x53 inline_none
opcode_of Code.stind_i4 = OpCode.new Code.stind_i4 "stind.i4" 0xFF 0x54 inline_none
opcode_of Code.stind_i8 = OpCode.new Code.stind_i8 "stind.i8" 0xFF 0x55 inline_none
opcode_of Code.stind_r4 = OpCode.new Code.stind_r4 "stind.r4" 0xFF 0x56 inline_none
opcode_of Code.stind_r8 = OpCode.new Code.stind_r8 "stind.r8" 0xFF 0x57 inline_none
opcode_of Code.add = OpCode.new Code.add "add" 0xFF 0x58 inline_none
opcode_of Code.sub = OpCode.new Code.sub "sub" 0xFF 0x59 inline_none
opcode_of Code.mul = OpCode.new Code.mul "mul" 0xFF 0x5a inline_none
opcode_of Code.div = OpCode.new Code.div "div" 0xFF 0x5b inline_none
opcode_of Code.div_un = OpCode.new Code.div_un "div.un" 0xFF 0x5c inline_none
opcode_of Code.rem = OpCode.new Code.rem "rem" 0xFF 0x5d inline_none
opcode_of Code.rem_un = OpCode.new Code.rem_un "rem.un" 0xFF 0x5e inline_none
opcode_of Code.and = OpCode.new Code.and "and" 0xFF 0x5f inline_none
opcode_of Code.or = OpCode.new Code.or "or" 0xFF 0x60 inline_none
opcode_of Code.xor = OpCode.new Code.xor "xor" 0xFF 0x61 inline_none
opcode_of Code.shl = OpCode.new Code.shl "shl" 0xFF 0x62 inline_none
opcode_of Code.shr = OpCode.new Code.shr "shr" 0xFF 0x63 inline_none
opcode_of Code.shr_un = OpCode.new Code.shr_un "shr.un" 0xFF 0x64 inline_none
opcode_of Code.neg = OpCode.new Code.neg "neg" 0xFF 0x65 inline_none
opcode_of Code.not = OpCode.new Code.not "not" 0xFF 0x66 inline_none
opcode_of Code.conv_i1 = OpCode.new Code.conv_i1 "conv.i1" 0xFF 0x67 inline_none
opcode_of Code.conv_i2 = OpCode.new Code.conv_i2 "conv.i2" 0xFF 0x68 inline_none
opcode_of Code.conv_i4 = OpCode.new Code.conv_i4 "conv.i4" 0xFF 0x69 inline_none
opcode_of Code.conv_i8 = OpCode.new Code.conv_i8 "conv.i8" 0xFF 0x6a inline_none
opcode_of Code.conv_r4 = OpCode.new Code.conv_r4 "conv.r4" 0xFF 0x6b inline_none
opcode_of Code.conv_r8 = OpCode.new Code.conv_r8 "conv.r8" 0xFF 0x6c inline_none
opcode_of Code.conv_u4 = OpCode.new Code.conv_u4 "conv.u4" 0xFF 0x6d inline_none
opcode_of Code.conv_u8 = OpCode.new Code.conv_u8 "conv.u8" 0xFF 0x6e inline_none
opcode_of Code.callvirt = OpCode.new Code.callvirt "callvirt" 0xFF 0x6f inline_method
opcode_of Code.cpobj = OpCode.new Code.cpobj "cpobj" 0xFF 0x70 inline_type
opcode_of Code.ldobj = OpCode.new Code.ldobj "ldobj" 0xFF 0x71 inline_type
opcode_of Code.ldstr = OpCode.new Code.ldstr "ldstr" 0xFF 0x72 inline_string
opcode_of Code.newobj = OpCode.new Code.newobj "newobj" 0xFF 0x73 inline_method
opcode_of Code.castclass = OpCode.new Code.castclass "castclass" 0xFF 0x74 inline_type
opcode_of Code.isinst = OpCode.new Code.isinst "isinst" 0xFF 0x75 inline_type
opcode_of Code.conv_r_un = OpCode.new Code.conv_r_un "conv.r.un" 0xFF 0x76 inline_none
opcode_of Code.unbox = OpCode.new Code.unbox "unbox" 0xFF 0x79 inline_type
opcode_of Code.throw = OpCode.new Code.throw "throw" 0xFF 0x7a inline_none
opcode_of Code.ldfld = OpCode.new Code.ldfld "ldfld" 0xFF 0x7b inline_field
opcode_of Code.ldflda = OpCode.new Code.ldflda "ldflda" 0xFF 0x7c inline_field
opcode_of Code.stfld = OpCode.new Code.stfld "stfld" 0xFF 0x7d inline_field
opcode_of Code.ldsfld = OpCode.new Code.ldsfld "ldsfld" 0xFF 0x7e inline_field
opcode_of Code.ldsflda = OpCode.new Code.ldsflda "ldsflda" 0xFF 0x7f inline_field
opcode_of Code.stsfld = OpCode.new Code.stsfld "stsfld" 0xFF 0x80 inline_field
opcode_of Code.stobj = OpCode.new Code.stobj "stobj" 0xFF 0x81 inline_type
opcode_of Code.conv_ovf_i1_un =
    OpCode.new Code.conv_ovf_i1_un "conv.ovf.i1.un" 0xFF 0x82 inline_none
opcode_of Code.conv_ovf_i2_un =
    OpCode.new Code.conv_ovf_i2_un "conv.ovf.i2.un" 0xFF 0x83 inline_none
opcode_of Code.conv_ovf_i4_un =
    OpCode.new Code.conv_ovf_i4_un "conv.ovf.i4.un" 0xFF 0x84 inline_none
opcode_of Code.conv_ovf_i8_un =
    OpCode.new Code.conv_ovf_i8_un "conv.ovf.i8.un" 0xFF 0x85 inline_none
opcode_of Code.conv_ovf_u1_un =
    OpCode.new Code.conv_ovf_u1_un "conv.ovf.u1.un" 0xFF 0x86 inline_none
opcode_of Code.conv_ovf_u2_un =
    OpCode.new Code.conv_ovf_u2_un "conv.ovf.u2.un" 0xFF 0x87 inline_none
opcode_of Code.conv_ovf_u4_un =
    OpCode.new Code.conv_ovf_u4_un "conv.ovf.u4.un" 0xFF 0x88 inline_none
opcode_of Code.conv_ovf_u8_un =
    OpCode.new Code.conv_ovf_u8_un "conv.ovf.u8.un" 0xFF 0x89 inline_none
opcode_of Code.conv_ovf_i_un = OpCode.new Code.conv_ovf_i_un "conv.ovf.i.un" 0xFF 0x8a inline_none
opcode_of Code.conv_ovf_u_un = OpCode.new Code.conv_ovf_u_un "conv.ovf.u.un" 0xFF 0x8b inline_none
opcode_of Code.box = OpCode.new Code.box "box" 0xFF 0x8c inline_type
opcode_of Code.newarr = OpCode.new Code.newarr "newarr" 0xFF 0x8d inline_type
opcode_of Code.ldlen = OpCode.new Code.ldlen "ldlen" 0xFF 0x8e inline_none
opcode_of Code.ldelema = OpCode.new Code.ldelema "ldelema" 0xFF 0x8f inline_type
opcode_of Code.ldelem_i1 = OpCode.new Code.ldelem_i1 "ldelem.i1" 0xFF 0x90 inline_none
opcode_of Code.ldelem_u1 = OpCode.new Code.ldelem_u1 "ldelem.u1" 0xFF 0x91 inline_none
opcode_of Code.ldelem_i2 = OpCode.new Code.ldelem_i2 "ldelem.i2" 0xFF 0x92 inline_none
opcode_of Code.ldelem_u2 = OpCode.new Code.ldelem_u2 "ldelem.u2" 0xFF 0x93 inline_none
opcode_of Code.ldelem_i4 = OpCode.new Code.ldelem_i4 "ldelem.i4" 0xFF 0x94 inline_none
opcode_of Code.ldelem_u4 = OpCode.new Code.ldelem_u4 "ldelem.u4" 0xFF 0x95 inline_none
opcode_of Code.ldelem_i8 = OpCode.new Code.ldelem_i8 "ldelem.i8" 0xFF 0x96 inline_none
opcode_of Code.ldelem_i = OpCode.new Code.ldelem_i "ldelem.i" 0xFF 0x97 inline_none
opcode_of Code.ldelem_r4 = OpCode.new Code.ldelem_r4 "ldelem.r4" 0xFF 0x98 inline_none
opcode_of Code.ldelem_r8 = OpCode.new Code.ldelem_r8 "ldelem.r8" 0xFF 0x99 inline_none
opcode_of Code.ldelem_ref = OpCode.new Code.ldelem_ref "ldelem.ref" 0xFF 0x9a inline_none
opcode_of Code.stelem_i = OpCode.new Code.stelem_i "stelem.i" 0xFF 0x9b inline_none
opcode_of Code.stelem_i1 = OpCode.new Code.stelem_i1 "stelem.i1" 0xFF 0x9c inline_none
opcode_of Code.stelem_i2 = OpCode.new Code.stelem_i2 "stelem.i2" 0xFF 0x9d inline_none
opcode_of Code.stelem_i4 = OpCode.new Code.stelem_i4 "stelem.i4" 0xFF 0x9e inline_none
opcode_of Code.stelem_i8 = OpCode.new Code.stelem_i8 "stelem.i8" 0xFF 0x9f inline_none
opcode_of Code.stelem_r4 = OpCode.new Code.stelem_r4 "stelem.r4" 0xFF 0xa0 inline_none
opcode_of Code.stelem_r8 = OpCode.new Code.stelem_r8 "stelem.r8" 0xFF 0xa1 inline_none
opcode_of Code.stelem_ref = OpCode.new Code.stelem_ref "stelem.ref" 0xFF 0xa2 inline_none
opcode_of Code.ldelem_any = OpCode.new Code.ldelem_any "ldelem.any" 0xFF 0xa3 inline_type
opcode_of Code.stelem_any = OpCode.new Code.stelem_any "stelem.any" 0xFF 0xa4 inline_type
opcode_of Code.unbox_any = OpCode.new Code.unbox_any "unbox.any" 0xFF 0xa5 inline_type
opcode_of Code.conv_ovf_i1 = OpCode.new Code.conv_ovf_i1 "conv.ovf.i1" 0xFF 0xb3 inline_none
opcode_of Code.conv_ovf_u1 = OpCode.new Code.conv_ovf_u1 "conv.ovf.u1" 0xFF 0xb4 inline_none
opcode_of Code.conv_ovf_i2 = OpCode.new Code.conv_ovf_i2 "conv.ovf.i2" 0xFF 0xb5 inline_none
opcode_of Code.conv_ovf_u2 = OpCode.new Code.conv_ovf_u2 "conv.ovf.u2" 0xFF 0xb6 inline_none
opcode_of Code.conv_ovf_i4 = OpCode.new Code.conv_ovf_i4 "conv.ovf.i4" 0xFF 0xb7 inline_none
opcode_of Code.conv_ovf_u4 = OpCode.new Code.conv_ovf_u4 "conv.ovf.u4" 0xFF 0xb8 inline_none
opcode_of Code.conv_ovf_i8 = OpCode.new Code.conv_ovf_i8 "conv.ovf.i8" 0xFF 0xb9 inline_none
opcode_of Code.conv_ovf_u8 = OpCode.new Code.conv_ovf_u8 "conv.ovf.u8" 0xFF 0xba inline_none
opcode_of Code.refanyval = OpCode.new Code.refanyval "refanyval" 0xFF 0xc2 inline_type
opcode_of Code.ckfinite = OpCode.new Code.ckfinite "ckfinite" 0xFF 0xc3 inline_none
opcode_of Code.mkrefany = OpCode.new Code.mkrefany "mkrefany" 0xFF 0xc6 inline_type
opcode_of Code.ldtoken = OpCode.new Code.ldtoken "ldtoken" 0xFF 0xd0 inline_tok
opcode_of Code.conv_u2 = OpCode.new Code.conv_u2 "conv.u2" 0xFF 0xd1 inline_none
opcode_of Code.conv_u1 = OpCode.new Code.conv_u1 "conv.u1" 0xFF 0xd2 inline_none
opcode_of Code.conv_i = OpCode.new Code.conv_i "conv.i" 0xFF 0xd3 inline_none
opcode_of Code.conv_ovf_i = OpCode.new Code.conv_ovf_i "conv.ovf.i" 0xFF 0xd4 inline_none
opcode_of Code.conv_ovf_u = OpCode.new Code.conv_ovf_u "conv.ovf.u" 0xFF 0xd5 inline_none
opcode_of Code.add_ovf = OpCode.new Code.add_ovf "add.ovf" 0xFF 0xd6 inline_none
opcode_of Code.add_ovf_un = OpCode.new Code.add_ovf_un "add.ovf.un" 0xFF 0xd7 inline_none
opcode_of Code.mul_ovf = OpCode.new Code.mul_ovf "mul.ovf" 0xFF 0xd8 inline_none
opcode_of Code.mul_ovf_un = OpCode.new Code.mul_ovf_un "mul.ovf.un" 0xFF 0xd9 inline_none
opcode_of Code.sub_ovf = OpCode.new Code.sub_ovf "sub.ovf" 0xFF 0xda inline_none
opcode_of Code.sub_ovf_un = OpCode.new Code.sub_ovf_un "sub.ovf.un" 0xFF 0xdb inline_none
opcode_of Code.endfinally = OpCode.new Code.endfinally "endfinally" 0xFF 0xdc inline_none
opcode_of Code.leave = OpCode.new Code.leave "leave" 0xFF 0xdd inline_br_target
opcode_of Code.leave_s = OpCode.new Code.leave_s "leave.s" 0xFF 0xde short_inline_br_target
opcode_of Code.stind_i = OpCode.new Code.stind_i "stind.i" 0xFF 0xdf inline_none
opcode_of Code.conv_u = OpCode.new Code.conv_u "conv.u" 0xFF 0xe0 inline_none
opcode_of Code.arglist = OpCode.new Code.arglist "arglist" 0xFE 0x00 inline_none
opcode_of Code.ceq = OpCode.new Code.ceq "ceq" 0xFE 0x01 inline_none
opcode_of Code.cgt = OpCode.new Code.cgt "cgt" 0xFE 0x02 inline_none
opcode_of Code.cgt_un = OpCode.new Code.cgt_un "cgt.un" 0xFE 0x03 inline_none
opcode_of Code.clt = OpCode.new Code.clt "clt" 0xFE 0x04 inline_none
opcode_of Code.clt_un = OpCode.new Code.clt_un "clt.un" 0xFE 0x05 inline_none
opcode_of Code.ldftn = OpCode.new Code.ldftn "ldftn" 0xFE 0x06 inline_method
opcode_of Code.ldvirtftn = OpCode.new Code.ldvirtftn "ldvirtftn" 0xFE 0x07 inline_method
opcode_of Code.ldarg = OpCode.new Code.ldarg "ldarg" 0xFE 0x09 inline_arg
opcode_of Code.ldarga = OpCode.new Code.ldarga "ldarga" 0xFE 0x0a inline_arg
opcode_of Code.starg = OpCode.new Code.starg "starg" 0xFE 0x0b inline_arg
opcode_of Code.ldloc = OpCode.new Code.ldloc "ldloc" 0xFE 0x0c inline_var
opcode_of Code.ldloca = OpCode.new Code.ldloca "ldloca" 0xFE 0x0d inline_var
opcode_of Code.stloc = OpCode.new Code.stloc "stloc" 0xFE 0x0e inline_var
opcode_of Code.localloc = OpCode.new Code.localloc "localloc" 0xFE 0x0f inline_none
opcode_of Code.endfilter = OpCode.new Code.endfilter "endfilter" 0xFE 0x11 inline_none
opcode_of Code.unaligned = OpCode.new Code.unaligned "unaligned." 0xFE 0x12 short_inline_i
opcode_of Code.volatile = OpCode.new Code.volatile "volatile." 0xFE 0x13 inline_none
opcode_of Code.tail = OpCode.new Code.tail "tail." 0xFE 0x14 inline_none
opcode_of Code.initobj = OpCode.new Code.initobj "initobj" 0xFE 0x15 inline_type
opcode_of Code.constrained = OpCode.new Code.constrained "constrained." 0xFE 0x16 inline_type
opcode_of Code.cpblk = OpCode.new Code.cpblk "cpblk" 0xFE 0x17 inline_none
opcode_of Code.initblk = OpCode.new Code.initblk "initblk" 0xFE 0x18 inline_none
opcode_of Code.no_ = OpCode.new Code.no_ "no." 0xFE 0x19 short_inline_i
opcode_of Code.rethrow = OpCode.new Code.rethrow "rethrow" 0xFE 0x1a inline_none
opcode_of Code.sizeof = OpCode.new Code.sizeof "sizeof" 0xFE 0x1c inline_type
opcode_of Code.refanytype = OpCode.new Code.refanytype "refanytype" 0xFE 0x1d inline_none
opcode_of Code.readonly = OpCode.new Code.readonly "readonly." 0xFE 0x1e inline_none

-- A row of the macro `table_entries!`: the constant and the two bytes.
abbrev pub Entry : Type 0
Entry = Code × ℕ × ℕ

abbrev pub entries : List Entry
entries =
    (Code.nop, 0xFF, 0x00)
    ∷ (Code.break, 0xFF, 0x01)
    ∷ (Code.ldarg_0, 0xFF, 0x02)
    ∷ (Code.ldarg_1, 0xFF, 0x03)
    ∷ (Code.ldarg_2, 0xFF, 0x04)
    ∷ (Code.ldarg_3, 0xFF, 0x05)
    ∷ (Code.ldloc_0, 0xFF, 0x06)
    ∷ (Code.ldloc_1, 0xFF, 0x07)
    ∷ (Code.ldloc_2, 0xFF, 0x08)
    ∷ (Code.ldloc_3, 0xFF, 0x09)
    ∷ (Code.stloc_0, 0xFF, 0x0a)
    ∷ (Code.stloc_1, 0xFF, 0x0b)
    ∷ (Code.stloc_2, 0xFF, 0x0c)
    ∷ (Code.stloc_3, 0xFF, 0x0d)
    ∷ (Code.ldarg_s, 0xFF, 0x0e)
    ∷ (Code.ldarga_s, 0xFF, 0x0f)
    ∷ (Code.starg_s, 0xFF, 0x10)
    ∷ (Code.ldloc_s, 0xFF, 0x11)
    ∷ (Code.ldloca_s, 0xFF, 0x12)
    ∷ (Code.stloc_s, 0xFF, 0x13)
    ∷ (Code.ldnull, 0xFF, 0x14)
    ∷ (Code.ldc_i4_m1, 0xFF, 0x15)
    ∷ (Code.ldc_i4_0, 0xFF, 0x16)
    ∷ (Code.ldc_i4_1, 0xFF, 0x17)
    ∷ (Code.ldc_i4_2, 0xFF, 0x18)
    ∷ (Code.ldc_i4_3, 0xFF, 0x19)
    ∷ (Code.ldc_i4_4, 0xFF, 0x1a)
    ∷ (Code.ldc_i4_5, 0xFF, 0x1b)
    ∷ (Code.ldc_i4_6, 0xFF, 0x1c)
    ∷ (Code.ldc_i4_7, 0xFF, 0x1d)
    ∷ (Code.ldc_i4_8, 0xFF, 0x1e)
    ∷ (Code.ldc_i4_s, 0xFF, 0x1f)
    ∷ (Code.ldc_i4, 0xFF, 0x20)
    ∷ (Code.ldc_i8, 0xFF, 0x21)
    ∷ (Code.ldc_r4, 0xFF, 0x22)
    ∷ (Code.ldc_r8, 0xFF, 0x23)
    ∷ (Code.dup, 0xFF, 0x25)
    ∷ (Code.pop, 0xFF, 0x26)
    ∷ (Code.jmp, 0xFF, 0x27)
    ∷ (Code.call, 0xFF, 0x28)
    ∷ (Code.calli, 0xFF, 0x29)
    ∷ (Code.ret, 0xFF, 0x2a)
    ∷ (Code.br_s, 0xFF, 0x2b)
    ∷ (Code.brfalse_s, 0xFF, 0x2c)
    ∷ (Code.brtrue_s, 0xFF, 0x2d)
    ∷ (Code.beq_s, 0xFF, 0x2e)
    ∷ (Code.bge_s, 0xFF, 0x2f)
    ∷ (Code.bgt_s, 0xFF, 0x30)
    ∷ (Code.ble_s, 0xFF, 0x31)
    ∷ (Code.blt_s, 0xFF, 0x32)
    ∷ (Code.bne_un_s, 0xFF, 0x33)
    ∷ (Code.bge_un_s, 0xFF, 0x34)
    ∷ (Code.bgt_un_s, 0xFF, 0x35)
    ∷ (Code.ble_un_s, 0xFF, 0x36)
    ∷ (Code.blt_un_s, 0xFF, 0x37)
    ∷ (Code.br, 0xFF, 0x38)
    ∷ (Code.brfalse, 0xFF, 0x39)
    ∷ (Code.brtrue, 0xFF, 0x3a)
    ∷ (Code.beq, 0xFF, 0x3b)
    ∷ (Code.bge, 0xFF, 0x3c)
    ∷ (Code.bgt, 0xFF, 0x3d)
    ∷ (Code.ble, 0xFF, 0x3e)
    ∷ (Code.blt, 0xFF, 0x3f)
    ∷ (Code.bne_un, 0xFF, 0x40)
    ∷ (Code.bge_un, 0xFF, 0x41)
    ∷ (Code.bgt_un, 0xFF, 0x42)
    ∷ (Code.ble_un, 0xFF, 0x43)
    ∷ (Code.blt_un, 0xFF, 0x44)
    ∷ (Code.switch, 0xFF, 0x45)
    ∷ (Code.ldind_i1, 0xFF, 0x46)
    ∷ (Code.ldind_u1, 0xFF, 0x47)
    ∷ (Code.ldind_i2, 0xFF, 0x48)
    ∷ (Code.ldind_u2, 0xFF, 0x49)
    ∷ (Code.ldind_i4, 0xFF, 0x4a)
    ∷ (Code.ldind_u4, 0xFF, 0x4b)
    ∷ (Code.ldind_i8, 0xFF, 0x4c)
    ∷ (Code.ldind_i, 0xFF, 0x4d)
    ∷ (Code.ldind_r4, 0xFF, 0x4e)
    ∷ (Code.ldind_r8, 0xFF, 0x4f)
    ∷ (Code.ldind_ref, 0xFF, 0x50)
    ∷ (Code.stind_ref, 0xFF, 0x51)
    ∷ (Code.stind_i1, 0xFF, 0x52)
    ∷ (Code.stind_i2, 0xFF, 0x53)
    ∷ (Code.stind_i4, 0xFF, 0x54)
    ∷ (Code.stind_i8, 0xFF, 0x55)
    ∷ (Code.stind_r4, 0xFF, 0x56)
    ∷ (Code.stind_r8, 0xFF, 0x57)
    ∷ (Code.add, 0xFF, 0x58)
    ∷ (Code.sub, 0xFF, 0x59)
    ∷ (Code.mul, 0xFF, 0x5a)
    ∷ (Code.div, 0xFF, 0x5b)
    ∷ (Code.div_un, 0xFF, 0x5c)
    ∷ (Code.rem, 0xFF, 0x5d)
    ∷ (Code.rem_un, 0xFF, 0x5e)
    ∷ (Code.and, 0xFF, 0x5f)
    ∷ (Code.or, 0xFF, 0x60)
    ∷ (Code.xor, 0xFF, 0x61)
    ∷ (Code.shl, 0xFF, 0x62)
    ∷ (Code.shr, 0xFF, 0x63)
    ∷ (Code.shr_un, 0xFF, 0x64)
    ∷ (Code.neg, 0xFF, 0x65)
    ∷ (Code.not, 0xFF, 0x66)
    ∷ (Code.conv_i1, 0xFF, 0x67)
    ∷ (Code.conv_i2, 0xFF, 0x68)
    ∷ (Code.conv_i4, 0xFF, 0x69)
    ∷ (Code.conv_i8, 0xFF, 0x6a)
    ∷ (Code.conv_r4, 0xFF, 0x6b)
    ∷ (Code.conv_r8, 0xFF, 0x6c)
    ∷ (Code.conv_u4, 0xFF, 0x6d)
    ∷ (Code.conv_u8, 0xFF, 0x6e)
    ∷ (Code.callvirt, 0xFF, 0x6f)
    ∷ (Code.cpobj, 0xFF, 0x70)
    ∷ (Code.ldobj, 0xFF, 0x71)
    ∷ (Code.ldstr, 0xFF, 0x72)
    ∷ (Code.newobj, 0xFF, 0x73)
    ∷ (Code.castclass, 0xFF, 0x74)
    ∷ (Code.isinst, 0xFF, 0x75)
    ∷ (Code.conv_r_un, 0xFF, 0x76)
    ∷ (Code.unbox, 0xFF, 0x79)
    ∷ (Code.throw, 0xFF, 0x7a)
    ∷ (Code.ldfld, 0xFF, 0x7b)
    ∷ (Code.ldflda, 0xFF, 0x7c)
    ∷ (Code.stfld, 0xFF, 0x7d)
    ∷ (Code.ldsfld, 0xFF, 0x7e)
    ∷ (Code.ldsflda, 0xFF, 0x7f)
    ∷ (Code.stsfld, 0xFF, 0x80)
    ∷ (Code.stobj, 0xFF, 0x81)
    ∷ (Code.conv_ovf_i1_un, 0xFF, 0x82)
    ∷ (Code.conv_ovf_i2_un, 0xFF, 0x83)
    ∷ (Code.conv_ovf_i4_un, 0xFF, 0x84)
    ∷ (Code.conv_ovf_i8_un, 0xFF, 0x85)
    ∷ (Code.conv_ovf_u1_un, 0xFF, 0x86)
    ∷ (Code.conv_ovf_u2_un, 0xFF, 0x87)
    ∷ (Code.conv_ovf_u4_un, 0xFF, 0x88)
    ∷ (Code.conv_ovf_u8_un, 0xFF, 0x89)
    ∷ (Code.conv_ovf_i_un, 0xFF, 0x8a)
    ∷ (Code.conv_ovf_u_un, 0xFF, 0x8b)
    ∷ (Code.box, 0xFF, 0x8c)
    ∷ (Code.newarr, 0xFF, 0x8d)
    ∷ (Code.ldlen, 0xFF, 0x8e)
    ∷ (Code.ldelema, 0xFF, 0x8f)
    ∷ (Code.ldelem_i1, 0xFF, 0x90)
    ∷ (Code.ldelem_u1, 0xFF, 0x91)
    ∷ (Code.ldelem_i2, 0xFF, 0x92)
    ∷ (Code.ldelem_u2, 0xFF, 0x93)
    ∷ (Code.ldelem_i4, 0xFF, 0x94)
    ∷ (Code.ldelem_u4, 0xFF, 0x95)
    ∷ (Code.ldelem_i8, 0xFF, 0x96)
    ∷ (Code.ldelem_i, 0xFF, 0x97)
    ∷ (Code.ldelem_r4, 0xFF, 0x98)
    ∷ (Code.ldelem_r8, 0xFF, 0x99)
    ∷ (Code.ldelem_ref, 0xFF, 0x9a)
    ∷ (Code.stelem_i, 0xFF, 0x9b)
    ∷ (Code.stelem_i1, 0xFF, 0x9c)
    ∷ (Code.stelem_i2, 0xFF, 0x9d)
    ∷ (Code.stelem_i4, 0xFF, 0x9e)
    ∷ (Code.stelem_i8, 0xFF, 0x9f)
    ∷ (Code.stelem_r4, 0xFF, 0xa0)
    ∷ (Code.stelem_r8, 0xFF, 0xa1)
    ∷ (Code.stelem_ref, 0xFF, 0xa2)
    ∷ (Code.ldelem_any, 0xFF, 0xa3)
    ∷ (Code.stelem_any, 0xFF, 0xa4)
    ∷ (Code.unbox_any, 0xFF, 0xa5)
    ∷ (Code.conv_ovf_i1, 0xFF, 0xb3)
    ∷ (Code.conv_ovf_u1, 0xFF, 0xb4)
    ∷ (Code.conv_ovf_i2, 0xFF, 0xb5)
    ∷ (Code.conv_ovf_u2, 0xFF, 0xb6)
    ∷ (Code.conv_ovf_i4, 0xFF, 0xb7)
    ∷ (Code.conv_ovf_u4, 0xFF, 0xb8)
    ∷ (Code.conv_ovf_i8, 0xFF, 0xb9)
    ∷ (Code.conv_ovf_u8, 0xFF, 0xba)
    ∷ (Code.refanyval, 0xFF, 0xc2)
    ∷ (Code.ckfinite, 0xFF, 0xc3)
    ∷ (Code.mkrefany, 0xFF, 0xc6)
    ∷ (Code.ldtoken, 0xFF, 0xd0)
    ∷ (Code.conv_u2, 0xFF, 0xd1)
    ∷ (Code.conv_u1, 0xFF, 0xd2)
    ∷ (Code.conv_i, 0xFF, 0xd3)
    ∷ (Code.conv_ovf_i, 0xFF, 0xd4)
    ∷ (Code.conv_ovf_u, 0xFF, 0xd5)
    ∷ (Code.add_ovf, 0xFF, 0xd6)
    ∷ (Code.add_ovf_un, 0xFF, 0xd7)
    ∷ (Code.mul_ovf, 0xFF, 0xd8)
    ∷ (Code.mul_ovf_un, 0xFF, 0xd9)
    ∷ (Code.sub_ovf, 0xFF, 0xda)
    ∷ (Code.sub_ovf_un, 0xFF, 0xdb)
    ∷ (Code.endfinally, 0xFF, 0xdc)
    ∷ (Code.leave, 0xFF, 0xdd)
    ∷ (Code.leave_s, 0xFF, 0xde)
    ∷ (Code.stind_i, 0xFF, 0xdf)
    ∷ (Code.conv_u, 0xFF, 0xe0)
    ∷ (Code.arglist, 0xFE, 0x00)
    ∷ (Code.ceq, 0xFE, 0x01)
    ∷ (Code.cgt, 0xFE, 0x02)
    ∷ (Code.cgt_un, 0xFE, 0x03)
    ∷ (Code.clt, 0xFE, 0x04)
    ∷ (Code.clt_un, 0xFE, 0x05)
    ∷ (Code.ldftn, 0xFE, 0x06)
    ∷ (Code.ldvirtftn, 0xFE, 0x07)
    ∷ (Code.ldarg, 0xFE, 0x09)
    ∷ (Code.ldarga, 0xFE, 0x0a)
    ∷ (Code.starg, 0xFE, 0x0b)
    ∷ (Code.ldloc, 0xFE, 0x0c)
    ∷ (Code.ldloca, 0xFE, 0x0d)
    ∷ (Code.stloc, 0xFE, 0x0e)
    ∷ (Code.localloc, 0xFE, 0x0f)
    ∷ (Code.endfilter, 0xFE, 0x11)
    ∷ (Code.unaligned, 0xFE, 0x12)
    ∷ (Code.volatile, 0xFE, 0x13)
    ∷ (Code.tail, 0xFE, 0x14)
    ∷ (Code.initobj, 0xFE, 0x15)
    ∷ (Code.constrained, 0xFE, 0x16)
    ∷ (Code.cpblk, 0xFE, 0x17)
    ∷ (Code.initblk, 0xFE, 0x18)
    ∷ (Code.no_, 0xFE, 0x19)
    ∷ (Code.rethrow, 0xFE, 0x1a)
    ∷ (Code.sizeof, 0xFE, 0x1c)
    ∷ (Code.refanytype, 0xFE, 0x1d)
    ∷ (Code.readonly, 0xFE, 0x1e)
    ∷ []

unfoldable pub all : List OpCode
unfolding opcode_of
all = map (λ e. opcode_of e.0) entries

-- An array of descriptors as a function of the index; an entry overwrites what stands there.
place : ℕ → (ℕ → Option OpCode) → Entry → ℕ → Option OpCode
place prefix array e i =
    if e.1 == prefix then (if e.2 == i then some (opcode_of e.0) else array i) else array i

one_byte_table : ℕ → Option OpCode
unfolding place opcode_of
one_byte_table = foldl (place 0xFF) (λ i. none) entries

two_byte_table : ℕ → Option OpCode
unfolding place opcode_of
two_byte_table = foldl (place 0xFE) (λ i. none) entries

-- The table has 0x100 entries, one for each byte.
unfoldable pub one_byte : ℕ → Option OpCode
unfolding one_byte_table
one_byte second = one_byte_table second

-- The table has 0x20 entries, and `get` finds none past its end.
unfoldable pub two_byte : ℕ → Option OpCode
unfolding two_byte_table
two_byte second = if ltb second 0x20 then two_byte_table second else none
