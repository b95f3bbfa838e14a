-- ===== src/Em8/Cpu/Move.antt =====
-- em8/src/Em8Cpu.cpp: the cases of `ExecuteOne` that load and store.
use emfe_plugins.Base.{ℕ}
use emfe_plugins.Em8.Cpu.State.{M, ret, ◌>>=◌, ◌>>◌}
use emfe_plugins.Em8.Cpu.Bus.{
  read_byte, write_byte, fetch_byte, addr_zpg, addr_zpg_x, addr_abs, addr_abs_x, addr_ind,
}
use emfe_plugins.Em8.Cpu.Opcode.{
  Load, lda_imm, lda_zpg, lda_abs, lda_zpg_x, lda_abs_x, lda_ind, ldx_imm, ldx_zpg, ldx_abs,
  ldy_imm, ldy_zpg, ldy_abs, Store, sta_zpg, sta_abs, sta_zpg_x, sta_abs_x, sta_ind, stx_zpg,
  stx_abs, sty_zpg, sty_abs,
}
use emfe_plugins.Em8.Cpu.Statements.{load_a, load_x, load_y, get_a, get_x, get_y}

unfoldable pub execute_load : Load → M ℕ
execute_load lda_imm = do val ← fetch_byte; load_a val; ret 2
execute_load lda_zpg = do addr ← addr_zpg; val ← read_byte addr; load_a val; ret 3
execute_load lda_abs = do addr ← addr_abs; val ← read_byte addr; load_a val; ret 4
execute_load lda_zpg_x = do addr ← addr_zpg_x; val ← read_byte addr; load_a val; ret 4
execute_load lda_abs_x = do addr ← addr_abs_x; val ← read_byte addr; load_a val; ret 4
execute_load lda_ind = do addr ← addr_ind; val ← read_byte addr; load_a val; ret 5
execute_load ldx_imm = do val ← fetch_byte; load_x val; ret 2
execute_load ldx_zpg = do addr ← addr_zpg; val ← read_byte addr; load_x val; ret 3
execute_load ldx_abs = do addr ← addr_abs; val ← read_byte addr; load_x val; ret 4
execute_load ldy_imm = do val ← fetch_byte; load_y val; ret 2
execute_load ldy_zpg = do addr ← addr_zpg; val ← read_byte addr; load_y val; ret 3
execute_load ldy_abs = do addr ← addr_abs; val ← read_byte addr; load_y val; ret 4

unfoldable pub execute_store : Store → M ℕ
execute_store sta_zpg = do addr ← addr_zpg; a ← get_a; write_byte addr a; ret 3
execute_store sta_abs = do addr ← addr_abs; a ← get_a; write_byte addr a; ret 4
execute_store sta_zpg_x = do addr ← addr_zpg_x; a ← get_a; write_byte addr a; ret 4
execute_store sta_abs_x = do addr ← addr_abs_x; a ← get_a; write_byte addr a; ret 5
execute_store sta_ind = do addr ← addr_ind; a ← get_a; write_byte addr a; ret 6
execute_store stx_zpg = do addr ← addr_zpg; x ← get_x; write_byte addr x; ret 3
execute_store stx_abs = do addr ← addr_abs; x ← get_x; write_byte addr x; ret 4
execute_store sty_zpg = do addr ← addr_zpg; y ← get_y; write_byte addr y; ret 3
execute_store sty_abs = do addr ← addr_abs; y ← get_y; write_byte addr y; ret 4
