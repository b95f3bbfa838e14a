-- ===== src/Z80/Cpu/Control.antt =====
-- z80/src/Z80Cpu.cpp, `ExecuteOne`: HALT, the interrupt switches, the jumps, calls and returns, and
-- the ports.
use emfe_plugins.Base.{ℕ, ◌+◌, ◌*◌, ◌/◌, true, false, bit_and, not, ◌==◌, if◌then◌else◌, u8, u16}
use emfe_plugins.Z80.Cpu.State.{
  Pair, bc, high, put_high, M, ◌>>=◌, ◌>>◌, gets, modify, load, a, set_a, set_pc, when, count,
}
use emfe_plugins.Z80.Cpu.Bus.{read_io, write_io, fetch_byte, fetch_word, push16, pop16, jump_by}
use emfe_plugins.Z80.Cpu.Alu.{check_cond}
use emfe_plugins.Z80.Cpu.Move.{dst_of}

unfoldable pub nop : M ℕ
nop = count 4

unfoldable pub halt : M ℕ
halt = do modify (λ s. record s { halted = true }); count 4

unfoldable pub di : M ℕ
di = do modify (λ s. record s { iff1 = false; iff2 = false }); count 4

unfoldable pub ei : M ℕ
ei = do modify (λ s. record s { iff1 = true; iff2 = true; ei_delay_pending = true }); count 4

unfoldable pub jr : M ℕ
jr = do e ← fetch_byte; jump_by e; count 12

unfoldable pub djnz : M ℕ
djnz = do
  e ← fetch_byte
  modify (λ s. put_high bc (u8 (high bc s + 255)) s)
  b ← gets (high bc)
  if not (b == 0) then (do jump_by e; count 13) else count 8

unfoldable pub jr_cc : ℕ → M ℕ
jr_cc opcode = do
  e ← fetch_byte
  taken ← gets (check_cond (bit_and (opcode / 8) 0x03))
  if taken then (do jump_by e; count 12) else count 7

unfoldable pub jp_nn : M ℕ
jp_nn = do nn ← fetch_word; set_pc nn; count 10

-- JP (HL) and JP (IXY)
unfoldable pub jp_pair : Pair → ℕ → M ℕ
jp_pair p cycles = do v ← load p; set_pc v; count cycles

unfoldable pub jp_cc : ℕ → M ℕ
jp_cc opcode = do
  nn ← fetch_word
  taken ← gets (check_cond (dst_of opcode))
  when taken (set_pc nn)
  count 10

unfoldable pub call_to : ℕ → M (Unit {0})
call_to nn = do pc ← gets (λ s. s.pc); push16 pc; set_pc nn

unfoldable pub call_nn : M ℕ
unfolding call_to
call_nn = do nn ← fetch_word; call_to nn; count 17

unfoldable pub call_cc : ℕ → M ℕ
unfolding call_to
call_cc opcode = do
  nn ← fetch_word
  taken ← gets (check_cond (dst_of opcode))
  if taken then (do call_to nn; count 17) else count 10

unfoldable pub return_to : M (Unit {0})
return_to = pop16 >>= set_pc

unfoldable pub ret_pc : M ℕ
unfolding return_to
ret_pc = do return_to; count 10

unfoldable pub ret_cc : ℕ → M ℕ
unfolding return_to
ret_cc opcode = do
  taken ← gets (check_cond (dst_of opcode))
  if taken then (do return_to; count 11) else count 5

unfoldable pub rst : ℕ → M ℕ
unfolding call_to
rst opcode = do call_to (u16 (dst_of opcode * 8)); count 11

unfoldable pub in_a_n : M ℕ
in_a_n = do port ← fetch_byte; v ← read_io port; set_a v; count 11

unfoldable pub out_n_a : M ℕ
out_n_a = do port ← fetch_byte; x ← a; write_io port x; count 11
