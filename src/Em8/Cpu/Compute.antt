-- ===== src/Em8/Cpu/Compute.antt =====
-- em8/src/Em8Cpu.cpp: the cases of `ExecuteOne` that compute in the registers. Each function is one
-- group of cases and returns the cycles.
use emfe_plugins.Base.{ℕ, ◌+◌, ◌*◌, ◌/◌, not, bit_and, bit_or, bit_xor, ◌==◌, if◌then◌else◌, u8}
use emfe_plugins.Em8.Cpu.State.{
  Flag, M, ret, ◌>>=◌, ◌>>◌, get_flag, gets, set_a, set_sp, put_flag, nz,
}
use emfe_plugins.Em8.Cpu.Bus.{read_byte, fetch_byte, addr_zpg, addr_abs}
use emfe_plugins.Em8.Cpu.Alu.{do_add, do_sub, do_cmp}
use emfe_plugins.Em8.Cpu.Opcode.{
  Alu, add_imm, add_zpg, add_abs, sub_imm, sub_zpg, sub_abs, and_imm, and_zpg, ora_imm, ora_zpg,
  xor_imm, xor_zpg, cmp_imm, cmp_zpg, cmp_abs, cpx_imm, cpy_imm, Unary, asl_a, lsr_a, rol_a, ror_a,
  inc_a, dec_a, inx, dex, iny, dey, Transfer, tax, txa, tay, tya, txs, tsx,
}
use emfe_plugins.Em8.Cpu.Statements.{load_a, load_x, load_y, get_a, get_x, get_y}

unfoldable pub execute_alu : Alu → M ℕ
execute_alu add_imm = do val ← fetch_byte; do_add val; ret 2
execute_alu add_zpg = do addr ← addr_zpg; val ← read_byte addr; do_add val; ret 3
execute_alu add_abs = do addr ← addr_abs; val ← read_byte addr; do_add val; ret 4
execute_alu sub_imm = do val ← fetch_byte; do_sub val; ret 2
execute_alu sub_zpg = do addr ← addr_zpg; val ← read_byte addr; do_sub val; ret 3
execute_alu sub_abs = do addr ← addr_abs; val ← read_byte addr; do_sub val; ret 4
execute_alu and_imm = do val ← fetch_byte; a ← get_a; load_a (bit_and a val); ret 2
execute_alu and_zpg = do
  addr ← addr_zpg
  val ← read_byte addr
  a ← get_a
  load_a (bit_and a val)
  ret 3
execute_alu ora_imm = do val ← fetch_byte; a ← get_a; load_a (bit_or a val); ret 2
execute_alu ora_zpg = do
  addr ← addr_zpg
  val ← read_byte addr
  a ← get_a
  load_a (bit_or a val)
  ret 3
execute_alu xor_imm = do val ← fetch_byte; a ← get_a; load_a (bit_xor a val); ret 2
execute_alu xor_zpg = do
  addr ← addr_zpg
  val ← read_byte addr
  a ← get_a
  load_a (bit_xor a val)
  ret 3
execute_alu cmp_imm = do val ← fetch_byte; a ← get_a; do_cmp a val; ret 2
execute_alu cmp_zpg = do addr ← addr_zpg; val ← read_byte addr; a ← get_a; do_cmp a val; ret 3
execute_alu cmp_abs = do addr ← addr_abs; val ← read_byte addr; a ← get_a; do_cmp a val; ret 4
execute_alu cpx_imm = do val ← fetch_byte; x ← get_x; do_cmp x val; ret 2
execute_alu cpy_imm = do val ← fetch_byte; y ← get_y; do_cmp y val; ret 2

unfoldable pub execute_unary : Unary → M ℕ
execute_unary asl_a = do
  a ← get_a
  set_a (u8 (a * 2))
  put_flag Flag.c (not (bit_and a 0x80 == 0))
  nz (u8 (a * 2))
  ret 2
execute_unary lsr_a = do
  a ← get_a
  set_a (a / 2)
  put_flag Flag.c (not (bit_and a 0x01 == 0))
  nz (a / 2)
  ret 2
execute_unary rol_a = do
  old_carry ← gets (get_flag Flag.c)
  a ← get_a
  let rotated = u8 (bit_or (a * 2) (if old_carry then 1 else 0))
  set_a rotated
  put_flag Flag.c (not (bit_and a 0x80 == 0))
  nz rotated
  ret 2
execute_unary ror_a = do
  old_carry ← gets (get_flag Flag.c)
  a ← get_a
  let rotated = u8 (bit_or (a / 2) (if old_carry then 0x80 else 0))
  set_a rotated
  put_flag Flag.c (not (bit_and a 0x01 == 0))
  nz rotated
  ret 2
execute_unary inc_a = do a ← get_a; load_a (u8 (a + 1)); ret 2
execute_unary dec_a = do a ← get_a; load_a (u8 (a + 255)); ret 2
execute_unary inx = do x ← get_x; load_x (u8 (x + 1)); ret 2
execute_unary dex = do x ← get_x; load_x (u8 (x + 255)); ret 2
execute_unary iny = do y ← get_y; load_y (u8 (y + 1)); ret 2
execute_unary dey = do y ← get_y; load_y (u8 (y + 255)); ret 2

unfoldable pub execute_transfer : Transfer → M ℕ
execute_transfer tax = do a ← get_a; load_x a; ret 2
execute_transfer txa = do x ← get_x; load_a x; ret 2
execute_transfer tay = do a ← get_a; load_y a; ret 2
execute_transfer tya = do y ← get_y; load_a y; ret 2
execute_transfer txs = do x ← get_x; set_sp x; ret 2
execute_transfer tsx = do sp ← gets (λ s. s.sp); load_x sp; ret 2
