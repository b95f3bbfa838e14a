-- ===== src/Z80/Cpu/Bits.antt =====
-- z80/src/Z80Cpu.cpp, `ExecuteOne`: the CB prefix, and its operation on a byte that `ExecuteWithIndex`
-- has too.
use emfe_plugins.Base.{ℕ, ◌/◌, ◌^◌, bit_and, bit_or, ◌==◌, if◌then◌else◌, u8, not32}
use emfe_plugins.Z80.Cpu.State.{hl, get, M, ◌>>=◌, ◌>>◌, gets, bump_r, count}
use emfe_plugins.Z80.Cpu.Bus.{fetch_byte, reg8_read, reg8_write}
use emfe_plugins.Z80.Cpu.Rotate.{rotate, op_bit}
use emfe_plugins.Z80.Cpu.Move.{dst_of, src_of}

-- `val & ~(1 << idx)` and `val | (1 << idx)`
unfoldable pub reset_bit : ℕ → ℕ → ℕ
reset_bit idx val = u8 (bit_and val (not32 (2 ^ idx)))

unfoldable pub set_bit : ℕ → ℕ → ℕ
set_bit idx val = u8 (bit_or val (2 ^ idx))

-- `switch (op)` on the bits 6 and 7. The result goes where `write` puts it; a test only sets the
-- flags, with Y and X from `yx_source`.
unfoldable pub bit_switch : ℕ → ℕ → ℕ → (ℕ → M (Unit {0})) → ℕ → ℕ → M ℕ
unfolding reset_bit set_bit
bit_switch cb val yx_source write cycles test_cycles =
    let op = bit_and (cb / 64) 0x03 in
    let idx = dst_of cb in
    if op == 0
    then (do r ← rotate idx val; write r; count cycles)
    else if op == 1
    then (do op_bit idx val yx_source; count test_cycles)
    else if op == 2
    then (do write (reset_bit idx val); count cycles)
    else (do write (set_bit idx val); count cycles)

unfoldable pub cb_prefix : M ℕ
unfolding bit_switch
cb_prefix = do
  cb ← fetch_byte
  bump_r
  val ← reg8_read (src_of cb)
  high_hl ← gets (λ s. u8 (get hl s / 256))
  let is_hl = src_of cb == 6
  bit_switch cb val (if is_hl then high_hl else val) (reg8_write (src_of cb))
      (if is_hl then 15 else 8) (if is_hl then 12 else 8)
