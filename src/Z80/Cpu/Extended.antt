-- ===== src/Z80/Cpu/Extended.antt =====
-- z80/src/Z80Cpu.cpp: `ExecuteEdPrefix`.
use emfe_plugins.Base.{
  ℕ, ◌*◌, ◌/◌, true, false, ◌||◌, not, bit_and, bit_or, ◌==◌, if◌then◌else◌, u8,
}
use emfe_plugins.Z80.Cpu.State.{
  bc, hl, sp, low, f_pv, f_c, mark, M, ◌>>=◌, ◌>>◌, ret, gets, modify, load, a, f, set_a, set_f,
  bump_r, count, when,
}
use emfe_plugins.Z80.Cpu.Bus.{
  read_byte, write_byte, read_io, write_io, fetch_byte, reg8_read, reg8_write,
}
use emfe_plugins.Z80.Cpu.Alu.{alu_sub, logic_flags, mark_sign, mark_yx}
use emfe_plugins.Z80.Cpu.Pairs.{adc_hl16, sbc_hl16}
use emfe_plugins.Z80.Cpu.Move.{pair_of, dst_of, ld_at_nn, ld_from_nn}
use emfe_plugins.Z80.Cpu.Control.{return_to}
use emfe_plugins.Z80.Cpu.Block.{ldi, ldir, cpi, cpir, ini, inir, outi, otir}

-- the cases of the function, in its order
pub data Group : Type 0 where
  sbc_hl adc_hl st_rr ld_rr negate ret_n im_0 im_1 im_2 i_from_a r_from_a a_from_ir in_r out_r
        rotate_digits block_ldi block_ldd block_ldir block_lddr block_cpi block_cpd block_cpir
        block_cpdr block_ini block_ind block_inir block_indr block_outi block_outd block_otir
        block_otdr nop :
      Group

-- the tests from the block moves on
unfoldable pub decode_block : ℕ → Group
decode_block sub =
    if sub == 0xA0
    then Group.block_ldi
    else if sub == 0xA8
    then Group.block_ldd
    else if sub == 0xB0
    then Group.block_ldir
    else if sub == 0xB8
    then Group.block_lddr
    else if sub == 0xA1
    then Group.block_cpi
    else if sub == 0xA9
    then Group.block_cpd
    else if sub == 0xB1
    then Group.block_cpir
    else if sub == 0xB9
    then Group.block_cpdr
    else if sub == 0xA2
    then Group.block_ini
    else if sub == 0xAA
    then Group.block_ind
    else if sub == 0xB2
    then Group.block_inir
    else if sub == 0xBA
    then Group.block_indr
    else if sub == 0xA3
    then Group.block_outi
    else if sub == 0xAB
    then Group.block_outd
    else if sub == 0xB3
    then Group.block_otir
    else if sub == 0xBB
    then Group.block_otdr
    else Group.nop

unfoldable pub decode : ℕ → Group
unfolding decode_block
decode sub =
    if bit_and sub 0xCF == 0x42
    then Group.sbc_hl
    else if bit_and sub 0xCF == 0x4A
    then Group.adc_hl
    else if bit_and sub 0xCF == 0x43
    then Group.st_rr
    else if bit_and sub 0xCF == 0x4B
    then Group.ld_rr
    else if bit_and sub 0xC7 == 0x44
    then Group.negate
    else if bit_and sub 0xC7 == 0x45
    then Group.ret_n
    else if sub == 0x46 || sub == 0x66 || sub == 0x4E || sub == 0x6E
    then Group.im_0
    else if sub == 0x56 || sub == 0x76
    then Group.im_1
    else if sub == 0x5E || sub == 0x7E
    then Group.im_2
    else if sub == 0x47
    then Group.i_from_a
    else if sub == 0x4F
    then Group.r_from_a
    else if sub == 0x57 || sub == 0x5F
    then Group.a_from_ir
    else if bit_and sub 0xC7 == 0x40
    then Group.in_r
    else if bit_and sub 0xC7 == 0x41
    then Group.out_r
    else if sub == 0x67 || sub == 0x6F
    then Group.rotate_digits
    else decode_block sub

-- `setLogicalFlagsFromIo`, and the same flags behind RRD and RLD
unfoldable pub set_logical_flags : ℕ → M (Unit {0})
set_logical_flags v = do fl ← f; set_f (logic_flags v (u8 (bit_and fl f_c)))

unfoldable pub neg : M ℕ
neg = do x ← a; r ← alu_sub 0 x false; set_a r; count 8

unfoldable pub retn : M ℕ
retn = do return_to; modify (λ s. record s { iff1 = s.iff2 }); count 14

unfoldable pub set_im : ℕ → M ℕ
set_im mode = do modify (λ s. record s { im = mode }); count 8

unfoldable pub ld_i_a : M ℕ
ld_i_a = do x ← a; modify (λ s. record s { i = x }); count 9

unfoldable pub ld_r_a : M ℕ
ld_r_a = do x ← a; modify (λ s. record s { r = x }); count 9

unfoldable pub ld_a_ir : ℕ → M ℕ
ld_a_ir sub = do
  v ← gets (λ s. if sub == 0x57 then s.i else s.r)
  set_a v
  fl ← f
  iff2 ← gets (λ s. s.iff2)
  set_f (mark iff2 f_pv (mark_yx v (mark_sign v (u8 (bit_and fl f_c)))))
  count 9

unfoldable pub in_r_c : ℕ → M ℕ
unfolding set_logical_flags
in_r_c sub = do
  port ← gets (low bc)
  v ← read_io port
  when (not (dst_of sub == 6)) (reg8_write (dst_of sub) v)
  set_logical_flags v
  count 12

unfoldable pub output_of : ℕ → M ℕ
output_of code = if code == 6 then ret 0 else reg8_read code

unfoldable pub out_c_r : ℕ → M ℕ
unfolding output_of
out_c_r sub = do v ← output_of (dst_of sub); port ← gets (low bc); write_io port v; count 12

-- the new A and the new byte at HL, for RRD and for RLD
unfoldable pub rrd_bytes : ℕ → ℕ → ℕ × ℕ
rrd_bytes x m = (u8 (bit_or (bit_and x 0xF0) (bit_and m 0x0F)), u8 (bit_or (x * 16) (m / 16)))

unfoldable pub rld_bytes : ℕ → ℕ → ℕ × ℕ
rld_bytes x m = (u8 (bit_or (bit_and x 0xF0) (m / 16)), u8 (bit_or (m * 16) (bit_and x 0x0F)))

unfoldable pub rotate_nibbles : ℕ → M ℕ
unfolding rrd_bytes rld_bytes set_logical_flags
rotate_nibbles sub = do
  x ← a
  addr ← load hl
  m ← read_byte addr
  let bytes = if sub == 0x67 then rrd_bytes x m else rld_bytes x m
  set_a bytes.0
  write_byte addr bytes.1
  set_logical_flags bytes.0
  count 18

unfoldable pub perform : ℕ → Group → M ℕ
unfolding neg retn set_im ld_i_a ld_r_a ld_a_ir in_r_c out_c_r rotate_nibbles
perform sub Group.sbc_hl = do y ← load (pair_of hl sp sub); sbc_hl16 y; count 15
perform sub Group.adc_hl = do y ← load (pair_of hl sp sub); adc_hl16 y; count 15
perform sub Group.st_rr = ld_at_nn (pair_of hl sp sub) 20
perform sub Group.ld_rr = ld_from_nn (pair_of hl sp sub) 20
perform sub Group.negate = neg
perform sub Group.ret_n = retn
perform sub Group.im_0 = set_im 0
perform sub Group.im_1 = set_im 1
perform sub Group.im_2 = set_im 2
perform sub Group.i_from_a = ld_i_a
perform sub Group.r_from_a = ld_r_a
perform sub Group.a_from_ir = ld_a_ir sub
perform sub Group.in_r = in_r_c sub
perform sub Group.out_r = out_c_r sub
perform sub Group.rotate_digits = rotate_nibbles sub
perform sub Group.block_ldi = ldi true
perform sub Group.block_ldd = ldi false
perform sub Group.block_ldir = ldir true
perform sub Group.block_lddr = ldir false
perform sub Group.block_cpi = cpi true
perform sub Group.block_cpd = cpi false
perform sub Group.block_cpir = cpir true
perform sub Group.block_cpdr = cpir false
perform sub Group.block_ini = ini true
perform sub Group.block_ind = ini false
perform sub Group.block_inir = inir true
perform sub Group.block_indr = inir false
perform sub Group.block_outi = outi true
perform sub Group.block_outd = outi false
perform sub Group.block_otir = otir true
perform sub Group.block_otdr = otir false
perform sub Group.nop = count 8

unfoldable pub execute_ed_prefix : M ℕ
execute_ed_prefix = do sub ← fetch_byte; bump_r; perform sub (decode sub)
