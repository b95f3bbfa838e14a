-- ===== src/Z80/Cpu/Block.antt =====
-- z80/src/Z80Cpu.cpp, `ExecuteEdPrefix`: the block moves, searches and transfers, and what repeats
-- them. A step goes up or down by one.
use emfe_plugins.Base.{
  ℕ, ◌+◌, ◌-◌, Bool, ◌&&◌, not, bit_and, bit_or, ltb, ◌==◌, if◌then◌else◌, u8, u16,
}
use emfe_plugins.Z80.Cpu.State.{
  bc, de, hl, high, low, put_high, f_s, f_z, f_y, f_h, f_x, f_pv, f_n, f_c, has, mark, M, ◌>>=◌,
  ◌>>◌, ret, gets, modify, load, store, a, f, set_f, set_pc, count,
}
use emfe_plugins.Z80.Cpu.Bus.{read_byte, write_byte, read_io, write_io}
use emfe_plugins.Z80.Cpu.Alu.{mark_sign, mark_yx}

-- `static_cast<uint16_t>(v + direction)`
abbrev pub toward : Bool → ℕ → ℕ
toward up v = u16 (v + (if up then 1 else 65535))

unfoldable pub move_flags : ℕ → ℕ → ℕ → ℕ
move_flags n count_left fl =
    let kept = u8 (bit_and fl (bit_or (bit_or f_s f_z) f_c)) in
    mark (not (count_left == 0)) f_pv (mark (has n 0x08) f_x (mark (has n 0x02) f_y kept))

unfoldable pub do_ld_move : Bool → M (Unit {0})
unfolding move_flags
do_ld_move up = do
  source ← load hl
  v ← read_byte source
  target ← load de
  write_byte target v
  store hl (toward up source)
  store de (toward up target)
  left ← load bc
  store bc (u16 (left + 65535))
  x ← a
  fl ← f
  set_f (move_flags (u8 (x + v)) (u16 (left + 65535)) fl)

unfoldable pub compare_flags : ℕ → ℕ → ℕ → ℕ → ℕ
compare_flags x v count_left fl =
    let result = u8 (x + 256 - v) in
    let borrow = ltb (bit_and x 0x0F) (bit_and v 0x0F) in
    let f1 = mark_sign result (bit_or (u8 (bit_and fl f_c)) f_n) in
    let f2 = mark borrow f_h f1 in
    let n = u8 (result + 256 - (if borrow then 1 else 0)) in
    mark (not (count_left == 0)) f_pv (mark (has n 0x08) f_x (mark (has n 0x02) f_y f2))

-- whether A is the byte at HL
unfoldable pub do_cp_step : Bool → M Bool
unfolding compare_flags
do_cp_step up = do
  source ← load hl
  v ← read_byte source
  x ← a
  store hl (toward up source)
  left ← load bc
  store bc (u16 (left + 65535))
  fl ← f
  set_f (compare_flags x v (u16 (left + 65535)) fl)
  ret (u8 (x + 256 - v) == 0)

-- the flags of the transfers, from the new B
unfoldable pub io_flags : ℕ → ℕ
io_flags b = mark_yx b (mark (has b 0x80) f_s (mark (b == 0) f_z f_n))

unfoldable pub do_in_step : Bool → M (Unit {0})
unfolding io_flags
do_in_step up = do
  port ← gets (low bc)
  v ← read_io port
  target ← load hl
  write_byte target v
  store hl (toward up target)
  b ← gets (high bc)
  modify (put_high bc (u8 (b + 255)))
  left ← gets (high bc)
  set_f (io_flags left)

unfoldable pub do_out_step : Bool → M (Unit {0})
unfolding io_flags
do_out_step up = do
  source ← load hl
  v ← read_byte source
  b ← gets (high bc)
  modify (put_high bc (u8 (b + 255)))
  port ← gets (low bc)
  write_io port v
  target ← load hl
  store hl (toward up target)
  left ← gets (high bc)
  set_f (io_flags left)

-- Goes back to the prefix for another step, or ends.
unfoldable pub step_back : M ℕ
step_back = do pc ← gets (λ s. s.pc); set_pc (u16 (pc + 65534)); count 21

unfoldable pub repeat_if : Bool → M ℕ
unfolding step_back
repeat_if again = if again then step_back else count 16

unfoldable pub ldi : Bool → M ℕ
ldi up = do do_ld_move up; count 16

unfoldable pub ldir : Bool → M ℕ
unfolding repeat_if
ldir up = do do_ld_move up; left ← load bc; repeat_if (not (left == 0))

unfoldable pub cpi : Bool → M ℕ
cpi up = do matched ← do_cp_step up; count 16

unfoldable pub cpir : Bool → M ℕ
unfolding repeat_if
cpir up = do matched ← do_cp_step up; left ← load bc; repeat_if (not matched && not (left == 0))

unfoldable pub ini : Bool → M ℕ
ini up = do do_in_step up; count 16

unfoldable pub inir : Bool → M ℕ
unfolding repeat_if
inir up = do do_in_step up; b ← gets (high bc); repeat_if (not (b == 0))

unfoldable pub outi : Bool → M ℕ
outi up = do do_out_step up; count 16

unfoldable pub otir : Bool → M ℕ
unfolding repeat_if
otir up = do do_out_step up; b ← gets (high bc); repeat_if (not (b == 0))
