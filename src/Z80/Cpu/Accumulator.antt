-- ===== src/Z80/Cpu/Accumulator.antt =====
-- z80/src/Z80Cpu.cpp: the accumulator's rotations, the decimal adjustment, CPL, SCF and CCF.
use emfe_plugins.Base.{
  ℕ, ◌+◌, ◌-◌, Bool, ◌&&◌, ◌||◌, not, bit_and, bit_or, ltb, if◌then◌else◌, u8, not8,
}
use emfe_plugins.Z80.Cpu.State.{
  f_s, f_z, f_y, f_h, f_x, f_pv, f_n, f_c, has, mark, M, ◌>>=◌, ◌>>◌, a, f, set_a, set_f,
}
use emfe_plugins.Z80.Cpu.Alu.{parity8, mark_yx, mark_sign}
use emfe_plugins.Z80.Cpu.Rotate.{left_with, right_with}

-- S, Z and P/V stay.
abbrev pub kept_szp : ℕ → ℕ
kept_szp fl = u8 (bit_and fl (bit_or (bit_or f_s f_z) f_pv))

-- the end of the four rotations: the result in A, Y and X from it, and the bit moved out in C
unfoldable pub rotated_a : ℕ → Bool → M (Unit {0})
rotated_a result carry = do
  set_a result
  fl ← f
  set_f (mark carry f_c (mark_yx result (kept_szp fl)))

unfoldable pub op_rlca : M (Unit {0})
unfolding rotated_a left_with
op_rlca = do x ← a; rotated_a (left_with (has x 0x80) x) (has x 0x80)

unfoldable pub op_rrca : M (Unit {0})
unfolding rotated_a right_with
op_rrca = do x ← a; rotated_a (right_with (has x 0x01) x) (has x 0x01)

unfoldable pub op_rla : M (Unit {0})
unfolding rotated_a left_with
op_rla = do x ← a; fl ← f; rotated_a (left_with (has fl f_c) x) (has x 0x80)

unfoldable pub op_rra : M (Unit {0})
unfolding rotated_a right_with
op_rra = do x ← a; fl ← f; rotated_a (right_with (has fl f_c) x) (has x 0x01)

-- whether the low and the high digit are corrected; the second is the new carry too
abbrev pub corrects_low : ℕ → ℕ → Bool
corrects_low x fl = has fl f_h || (not (has fl f_n) && ltb 0x09 (bit_and x 0x0F))

abbrev pub corrects_high : ℕ → ℕ → Bool
corrects_high x fl = has fl f_c || (not (has fl f_n) && ltb 0x99 x)

unfoldable pub daa_result : ℕ → ℕ → ℕ
daa_result x fl =
    let correction = mark (corrects_high x fl) 0x60 (mark (corrects_low x fl) 0x06 0) in
    if has fl f_n then u8 (x + 256 - correction) else u8 (x + correction)

unfoldable pub daa_half : ℕ → ℕ → Bool
daa_half x fl =
    if has fl f_n then has fl f_h && ltb (bit_and x 0x0F) 0x06 else ltb 0x09 (bit_and x 0x0F)

unfoldable pub daa_flags : ℕ → ℕ → ℕ
unfolding daa_result daa_half parity8
daa_flags x fl =
    let new_a = daa_result x fl in
    let f1 = mark (has new_a 0x20) f_y (mark_sign new_a (u8 (bit_and fl f_n))) in
    let f2 = mark (has new_a 0x08) f_x (mark (daa_half x fl) f_h f1) in
    mark (corrects_high x fl) f_c (mark (parity8 new_a) f_pv f2)

unfoldable pub op_daa : M (Unit {0})
unfolding daa_result daa_flags
op_daa = do x ← a; fl ← f; set_a (daa_result x fl); set_f (daa_flags x fl)

unfoldable pub op_cpl : M (Unit {0})
op_cpl = do
  x ← a
  set_a (not8 x)
  fl ← f
  let kept = u8 (bit_and fl (bit_or (bit_or (bit_or f_s f_z) f_pv) f_c))
  set_f (mark_yx (not8 x) (bit_or (bit_or kept f_h) f_n))

unfoldable pub op_scf : M (Unit {0})
op_scf = do x ← a; fl ← f; set_f (bit_or (mark_yx x (kept_szp fl)) f_c)

unfoldable pub op_ccf : M (Unit {0})
op_ccf = do
  x ← a
  fl ← f
  set_f (mark (not (has fl f_c)) f_c (mark (has fl f_c) f_h (mark_yx x (kept_szp fl))))
