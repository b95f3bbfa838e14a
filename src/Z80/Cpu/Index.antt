-- ===== src/Z80/Cpu/Index.antt =====
-- z80/src/Z80Cpu.cpp: `ExecuteWithIndex`, the DD and FD prefixes. `p` is the register that the pointer
-- `IXY` leads to, `ix` or `iy`.
use emfe_plugins.Base.{
  ℕ, ◌+◌, ◌/◌, Bool, ◌&&◌, ◌||◌, not, bit_and, ◌==◌, if◌then◌else◌, u8, u16, add_offset,
}
use emfe_plugins.Z80.Cpu.State.{
  Pair, sp, M, ◌>>=◌, ◌>>◌, ret, gets, load, store, set_pc, bump_r, count,
}
use emfe_plugins.Z80.Cpu.Bus.{
  Operand, operand, read_operand, write_operand, read_byte, write_byte, fetch_byte, fetch_word,
  reg8_read,
}
use emfe_plugins.Z80.Cpu.Alu.{alu}
use emfe_plugins.Z80.Cpu.Pairs.{add_pair16}
use emfe_plugins.Z80.Cpu.Move.{
  pair_of, dst_of, src_of, set_inc_flags, set_dec_flags, ld_at_nn, ld_from_nn, push_rr, pop_rr,
  ld_sp,
}
use emfe_plugins.Z80.Cpu.Control.{jp_pair}
use emfe_plugins.Z80.Cpu.Bits.{bit_switch}

-- the cases of the function, in its order
pub data Group : Type 0 where
  ld_nn st_nn ld_mem inc dec add_rr push pop jp ld_sp_ixy st_n ld_r st_r inc_mem dec_mem alu_mem cb
        inc_half dec_half ld_high ld_low ld_half alu_half prefix_only :
      Group

-- 01 ddd sss with neither field (HL) and at least one of them H or L
abbrev pub is_ld_half : ℕ → Bool
is_ld_half opcode =
    let dst = dst_of opcode in
    let src = src_of opcode in
    bit_and opcode 0xC0 == 0x40
    && not (opcode == 0x76)
    && not (dst == 6)
    && not (src == 6)
    && (dst == 4 || dst == 5 || src == 4 || src == 5)

abbrev pub is_alu_half : ℕ → Bool
is_alu_half opcode = bit_and opcode 0xC0 == 0x80 && (src_of opcode == 4 || src_of opcode == 5)

-- the tests behind the case of the CB page
unfoldable pub decode_half : ℕ → Group
decode_half opcode =
    if opcode == 0x24 || opcode == 0x2C
    then Group.inc_half
    else if opcode == 0x25 || opcode == 0x2D
    then Group.dec_half
    else if opcode == 0x26
    then Group.ld_high
    else if opcode == 0x2E
    then Group.ld_low
    else if is_ld_half opcode
    then Group.ld_half
    else if is_alu_half opcode
    then Group.alu_half
    else Group.prefix_only

unfoldable pub decode : ℕ → Group
unfolding decode_half
decode opcode =
    if opcode == 0x21
    then Group.ld_nn
    else if opcode == 0x22
    then Group.st_nn
    else if opcode == 0x2A
    then Group.ld_mem
    else if opcode == 0x23
    then Group.inc
    else if opcode == 0x2B
    then Group.dec
    else if bit_and opcode 0xCF == 0x09
    then Group.add_rr
    else if opcode == 0xE5
    then Group.push
    else if opcode == 0xE1
    then Group.pop
    else if opcode == 0xE9
    then Group.jp
    else if opcode == 0xF9
    then Group.ld_sp_ixy
    else if opcode == 0x36
    then Group.st_n
    else if bit_and opcode 0xC7 == 0x46 && not (opcode == 0x76)
    then Group.ld_r
    else if bit_and opcode 0xF8 == 0x70 && not (opcode == 0x76)
    then Group.st_r
    else if opcode == 0x34
    then Group.inc_mem
    else if opcode == 0x35
    then Group.dec_mem
    else if bit_and opcode 0xC7 == 0x86
    then Group.alu_mem
    else if opcode == 0xCB
    then Group.cb
    else decode_half opcode

-- `ea_of`: fetches the displacement
unfoldable pub ea_of : Pair → M ℕ
ea_of p = do d ← fetch_byte; base ← load p; ret (add_offset base d)

-- `readRegIxy` and `writeRegIxy`: H and L are the halves of the index register
unfoldable pub half_operand : Pair → ℕ → Operand
half_operand p code =
    if code == 4 then Operand.high_of p else if code == 5 then Operand.low_of p else operand code

unfoldable pub step_pair : Pair → ℕ → M ℕ
step_pair p delta = do x ← load p; store p (u16 (x + delta)); count 10

unfoldable pub add_ixy : Pair → ℕ → M ℕ
add_ixy p opcode = do
  x ← load p
  y ← load (pair_of p sp opcode)
  sum ← add_pair16 x y
  store p sum
  count 15

unfoldable pub st_imm : Pair → M ℕ
unfolding ea_of
st_imm p = do ea ← ea_of p; n ← fetch_byte; write_byte ea n; count 19

unfoldable pub ld_reg : Pair → ℕ → M ℕ
unfolding ea_of
ld_reg p opcode = do
  ea ← ea_of p
  v ← read_byte ea
  write_operand (operand (dst_of opcode)) v
  count 19

unfoldable pub st_reg : Pair → ℕ → M ℕ
unfolding ea_of
st_reg p opcode = do ea ← ea_of p; v ← reg8_read (src_of opcode); write_byte ea v; count 19

-- INC and DEC of the byte at the address, by the delta 1 or 255, and what sets the flags
unfoldable pub step_mem : Pair → ℕ → (ℕ → M (Unit {0})) → M ℕ
unfolding ea_of
step_mem p delta set_flags = do
  ea ← ea_of p
  orig ← read_byte ea
  write_byte ea (u8 (orig + delta))
  set_flags orig
  count 23

unfoldable pub alu_at : Pair → ℕ → M ℕ
unfolding ea_of
alu_at p opcode = do ea ← ea_of p; val ← read_byte ea; alu (dst_of opcode) val; count 19

unfoldable pub cb_at : Pair → M ℕ
cb_at p = do
  d ← fetch_byte
  op ← fetch_byte
  bump_r
  base ← load p
  val ← read_byte (add_offset base d)
  bit_switch op val (u8 (add_offset base d / 256)) (write_byte (add_offset base d)) 23 20

-- INC and DEC of a half: the high one at the opcode `high_opcode`
unfoldable pub step_half : Pair → ℕ → Bool → (ℕ → M (Unit {0})) → M ℕ
step_half p delta is_high set_flags = do
  let half = if is_high then Operand.high_of p else Operand.low_of p
  orig ← read_operand half
  write_operand half (u8 (orig + delta))
  set_flags orig
  count 8

unfoldable pub ld_half_imm : Operand → M ℕ
ld_half_imm half = do n ← fetch_byte; write_operand half n; count 11

unfoldable pub ld_halves : Pair → ℕ → M ℕ
unfolding half_operand
ld_halves p opcode = do
  v ← read_operand (half_operand p (src_of opcode))
  write_operand (half_operand p (dst_of opcode)) v
  count 8

unfoldable pub alu_of_half : Pair → ℕ → M ℕ
alu_of_half p opcode = do
  val ← read_operand (if src_of opcode == 4 then Operand.high_of p else Operand.low_of p)
  alu (dst_of opcode) val
  count 8

-- The suffix is left for the next call.
unfoldable pub skip_prefix : M ℕ
skip_prefix = do pc ← gets (λ s. s.pc); set_pc (u16 (pc + 65535)); count 4

unfoldable pub perform : Pair → ℕ → Group → M ℕ
perform p opcode Group.ld_nn = do nn ← fetch_word; store p nn; count 14
perform p opcode Group.st_nn = ld_at_nn p 20
perform p opcode Group.ld_mem = ld_from_nn p 20
perform p opcode Group.inc = step_pair p 1
perform p opcode Group.dec = step_pair p 65535
perform p opcode Group.add_rr = add_ixy p opcode
perform p opcode Group.push = push_rr p 15
perform p opcode Group.pop = pop_rr p 14
perform p opcode Group.jp = jp_pair p 8
perform p opcode Group.ld_sp_ixy = ld_sp p 10
perform p opcode Group.st_n = st_imm p
perform p opcode Group.ld_r = ld_reg p opcode
perform p opcode Group.st_r = st_reg p opcode
perform p opcode Group.inc_mem = step_mem p 1 set_inc_flags
perform p opcode Group.dec_mem = step_mem p 255 set_dec_flags
perform p opcode Group.alu_mem = alu_at p opcode
perform p opcode Group.cb = cb_at p
perform p opcode Group.inc_half = step_half p 1 (opcode == 0x24) set_inc_flags
perform p opcode Group.dec_half = step_half p 255 (opcode == 0x25) set_dec_flags
perform p opcode Group.ld_high = ld_half_imm (Operand.high_of p)
perform p opcode Group.ld_low = ld_half_imm (Operand.low_of p)
perform p opcode Group.ld_half = ld_halves p opcode
perform p opcode Group.alu_half = alu_of_half p opcode
perform p opcode Group.prefix_only = skip_prefix

unfoldable pub execute_with_index : Pair → M ℕ
execute_with_index p = do opcode ← fetch_byte; bump_r; perform p opcode (decode opcode)
