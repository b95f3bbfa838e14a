-- ===== src/Z80/Cpu/Pairs.antt =====
-- z80/src/Z80Cpu.cpp: the 16-bit additions and subtractions.
use emfe_plugins.Base.{ℕ, ◌+◌, ◌-◌, ◌/◌, Bool, bit_and, bit_or, bit_xor, ltb, ◌==◌, u8, u16}
use emfe_plugins.Z80.Cpu.State.{
  hl, f_s, f_z, f_y, f_h, f_x, f_pv, f_n, f_c, has, mark, M, ◌>>=◌, ◌>>◌, ret, f, set_f, load,
  store,
}
use emfe_plugins.Z80.Cpu.Alu.{of_bool}

-- S, Z and P/V of the flags `fl` stay.
unfoldable pub add16_flags : ℕ → ℕ → ℕ → ℕ
add16_flags x y fl =
    let full = x + y in
    let half = bit_and x 0x0FFF + bit_and y 0x0FFF in
    let result = u16 (bit_and full 0xFFFF) in
    let kept = u8 (bit_and fl (bit_or (bit_or f_s f_z) f_pv)) in
    let f1 = mark (ltb 0x0FFF half) f_h (mark (ltb 0xFFFF full) f_c kept) in
    mark (has (result / 256) 0x08) f_x (mark (has (result / 256) 0x20) f_y f1)

unfoldable pub add_pair16 : ℕ → ℕ → M ℕ
unfolding add16_flags
add_pair16 x y = do fl ← f; set_f (add16_flags x y fl); ret (u16 (bit_and (x + y) 0xFFFF))

unfoldable pub adc16_flags : ℕ → ℕ → Bool → ℕ
adc16_flags x y carry =
    let cy = of_bool carry in
    let full = x + y + cy in
    let half = bit_and x 0x0FFF + bit_and y 0x0FFF + cy in
    let result = u16 full in
    let f1 = mark (result == 0) f_z (mark (has result 0x8000) f_s 0) in
    let f2 = mark (ltb 0x0FFF half) f_h (mark (has (result / 256) 0x20) f_y f1) in
    let f3 = mark (has (result / 256) 0x08) f_x f2 in
    let f4 = mark (has (bit_and (bit_xor x result) (bit_xor y result)) 0x8000) f_pv f3 in
    mark (ltb 0xFFFF full) f_c f4

unfoldable pub adc_hl16 : ℕ → M (Unit {0})
unfolding adc16_flags
adc_hl16 y = do
  fl ← f
  x ← load hl
  set_f (adc16_flags x y (has fl f_c))
  store hl (u16 (x + y + of_bool (has fl f_c)))

unfoldable pub sbc16_result : ℕ → ℕ → Bool → ℕ
sbc16_result x y borrow = u16 (x + 131072 - y - of_bool borrow)

unfoldable pub sbc16_flags : ℕ → ℕ → Bool → ℕ
unfolding sbc16_result
sbc16_flags x y borrow =
    let by = of_bool borrow in
    let result = sbc16_result x y borrow in
    let f1 = mark (result == 0) f_z (mark (has result 0x8000) f_s f_n) in
    let f2 = mark (has (result / 256) 0x20) f_y f1 in
    let f3 = mark (ltb (bit_and x 0x0FFF) (bit_and y 0x0FFF + by)) f_h f2 in
    let f4 = mark (has (result / 256) 0x08) f_x f3 in
    let f5 = mark (has (bit_and (bit_xor x y) (bit_xor x result)) 0x8000) f_pv f4 in
    mark (ltb x (y + by)) f_c f5

unfoldable pub sbc_hl16 : ℕ → M (Unit {0})
unfolding sbc16_flags sbc16_result
sbc_hl16 y = do
  fl ← f
  x ← load hl
  set_f (sbc16_flags x y (has fl f_c))
  store hl (sbc16_result x y (has fl f_c))
