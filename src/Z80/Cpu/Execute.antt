-- ===== src/Z80/Cpu/Execute.antt =====
-- z80/src/Z80Cpu.cpp: `ExecuteOne`.
use emfe_plugins.Base.{ℕ, false, ◌&&◌, not, bit_and, leb, ◌==◌, if◌then◌else◌, contains}
use emfe_plugins.Base.Signed.{ℤ, pos, negsuc}
use emfe_plugins.Z80.Cpu.State.{
  Cpu, af, bc, de, hl, ix, iy, M, ◌>>=◌, ◌>>◌, ret, set_pc, bump_r, count,
}
use emfe_plugins.Z80.Cpu.Bus.{fetch_byte}
use emfe_plugins.Z80.Cpu.Accumulator.{
  op_rlca, op_rrca, op_rla, op_rra, op_daa, op_cpl, op_scf, op_ccf,
}
use emfe_plugins.Z80.Cpu.Move.{
  pair_of, ld_rr_nn, add_hl_rr, inc_rr, dec_rr, inc_r, dec_r, ld_at_pair_a, ld_a_at_pair, ld_at_nn,
  ld_from_nn, ld_at_nn_a, ld_a_from_nn, ld_r_n, ld_r_r, alu_r, alu_n, push_rr, pop_rr, ld_sp, ex_af,
  exx, ex_de_hl, ex_sp_hl,
}
use emfe_plugins.Z80.Cpu.Control.{
  nop, halt, di, ei, jr, djnz, jr_cc, jp_nn, jp_pair, jp_cc, call_nn, call_cc, ret_pc, ret_cc, rst,
  in_a_n, out_n_a,
}
use emfe_plugins.Z80.Cpu.Bits.{cb_prefix}
use emfe_plugins.Z80.Cpu.Index.{execute_with_index}
use emfe_plugins.Z80.Cpu.Extended.{execute_ed_prefix}
use emfe_plugins.Z80.Cpu.Interrupts.{accept_nmi, accept_irq}

-- the cases of the function, in its order
pub data Group : Type 0 where
  no_op index_x index_y extended ld_pair add_pair inc_pair dec_pair inc dec st_bc st_de ld_bc ld_de
        st_hl ld_hl st_a ld_a ld_imm enter_halt disable enable ld_reg alu_reg alu_imm jump_rel
        loop_rel jr_cond jp jp_hl jp_cond call call_cond return_always ret_cond restart push pop
        bits ld_sp_hl swap_af swap_all swap_de_hl swap_sp_hl rlca rrca rla rra daa cpl scf ccf in_a
        out_a unrecognised :
      Group

-- the tests from the stack on
unfoldable pub decode_late : ℕ → Group
decode_late opcode =
    if bit_and opcode 0xCF == 0xC5
    then Group.push
    else if bit_and opcode 0xCF == 0xC1
    then Group.pop
    else if opcode == 0xCB
    then Group.bits
    else if opcode == 0xF9
    then Group.ld_sp_hl
    else if opcode == 0x08
    then Group.swap_af
    else if opcode == 0xD9
    then Group.swap_all
    else if opcode == 0xEB
    then Group.swap_de_hl
    else if opcode == 0xE3
    then Group.swap_sp_hl
    else if opcode == 0x07
    then Group.rlca
    else if opcode == 0x0F
    then Group.rrca
    else if opcode == 0x17
    then Group.rla
    else if opcode == 0x1F
    then Group.rra
    else if opcode == 0x27
    then Group.daa
    else if opcode == 0x2F
    then Group.cpl
    else if opcode == 0x37
    then Group.scf
    else if opcode == 0x3F
    then Group.ccf
    else if opcode == 0xDB
    then Group.in_a
    else if opcode == 0xD3
    then Group.out_a
    else Group.unrecognised

-- the tests of HALT, the interrupt switches, the register operations and the control flow
unfoldable pub decode_middle : ℕ → Group
unfolding decode_late
decode_middle opcode =
    if opcode == 0x76
    then Group.enter_halt
    else if opcode == 0xF3
    then Group.disable
    else if opcode == 0xFB
    then Group.enable
    else if leb 0x40 opcode && leb opcode 0x7F && not (opcode == 0x76)
    then Group.ld_reg
    else if bit_and opcode 0xC0 == 0x80
    then Group.alu_reg
    else if bit_and opcode 0xC7 == 0xC6
    then Group.alu_imm
    else if opcode == 0x18
    then Group.jump_rel
    else if opcode == 0x10
    then Group.loop_rel
    else if bit_and opcode 0xE7 == 0x20
    then Group.jr_cond
    else if opcode == 0xC3
    then Group.jp
    else if opcode == 0xE9
    then Group.jp_hl
    else if bit_and opcode 0xC7 == 0xC2
    then Group.jp_cond
    else if opcode == 0xCD
    then Group.call
    else if bit_and opcode 0xC7 == 0xC4
    then Group.call_cond
    else if opcode == 0xC9
    then Group.return_always
    else if bit_and opcode 0xC7 == 0xC0
    then Group.ret_cond
    else if bit_and opcode 0xC7 == 0xC7
    then Group.restart
    else decode_late opcode

unfoldable pub decode : ℕ → Group
unfolding decode_middle
decode opcode =
    if opcode == 0x00
    then Group.no_op
    else if opcode == 0xDD
    then Group.index_x
    else if opcode == 0xFD
    then Group.index_y
    else if opcode == 0xED
    then Group.extended
    else if bit_and opcode 0xCF == 0x01
    then Group.ld_pair
    else if bit_and opcode 0xCF == 0x09
    then Group.add_pair
    else if bit_and opcode 0xCF == 0x03
    then Group.inc_pair
    else if bit_and opcode 0xCF == 0x0B
    then Group.dec_pair
    else if bit_and opcode 0xC7 == 0x04
    then Group.inc
    else if bit_and opcode 0xC7 == 0x05
    then Group.dec
    else if opcode == 0x02
    then Group.st_bc
    else if opcode == 0x12
    then Group.st_de
    else if opcode == 0x0A
    then Group.ld_bc
    else if opcode == 0x1A
    then Group.ld_de
    else if opcode == 0x22
    then Group.st_hl
    else if opcode == 0x2A
    then Group.ld_hl
    else if opcode == 0x32
    then Group.st_a
    else if opcode == 0x3A
    then Group.ld_a
    else if bit_and opcode 0xC7 == 0x06
    then Group.ld_imm
    else decode_middle opcode

-- the end of the function: back to the opcode
unfoldable pub trap : ℕ → M ℕ
trap opcode_pc = do set_pc opcode_pc; ret 0

unfoldable pub perform : ℕ → ℕ → Group → M ℕ
unfolding trap
perform pc opcode Group.no_op = nop
perform pc opcode Group.index_x = execute_with_index ix
perform pc opcode Group.index_y = execute_with_index iy
perform pc opcode Group.extended = execute_ed_prefix
perform pc opcode Group.ld_pair = ld_rr_nn opcode
perform pc opcode Group.add_pair = add_hl_rr opcode
perform pc opcode Group.inc_pair = inc_rr opcode
perform pc opcode Group.dec_pair = dec_rr opcode
perform pc opcode Group.inc = inc_r opcode
perform pc opcode Group.dec = dec_r opcode
perform pc opcode Group.st_bc = ld_at_pair_a bc
perform pc opcode Group.st_de = ld_at_pair_a de
perform pc opcode Group.ld_bc = ld_a_at_pair bc
perform pc opcode Group.ld_de = ld_a_at_pair de
perform pc opcode Group.st_hl = ld_at_nn hl 16
perform pc opcode Group.ld_hl = ld_from_nn hl 16
perform pc opcode Group.st_a = ld_at_nn_a
perform pc opcode Group.ld_a = ld_a_from_nn
perform pc opcode Group.ld_imm = ld_r_n opcode
perform pc opcode Group.enter_halt = halt
perform pc opcode Group.disable = di
perform pc opcode Group.enable = ei
perform pc opcode Group.ld_reg = ld_r_r opcode
perform pc opcode Group.alu_reg = alu_r opcode
perform pc opcode Group.alu_imm = alu_n opcode
perform pc opcode Group.jump_rel = jr
perform pc opcode Group.loop_rel = djnz
perform pc opcode Group.jr_cond = jr_cc opcode
perform pc opcode Group.jp = jp_nn
perform pc opcode Group.jp_hl = jp_pair hl 4
perform pc opcode Group.jp_cond = jp_cc opcode
perform pc opcode Group.call = call_nn
perform pc opcode Group.call_cond = call_cc opcode
perform pc opcode Group.return_always = ret_pc
perform pc opcode Group.ret_cond = ret_cc opcode
perform pc opcode Group.restart = rst opcode
perform pc opcode Group.push = push_rr (pair_of hl af opcode) 11
perform pc opcode Group.pop = pop_rr (pair_of hl af opcode) 10
perform pc opcode Group.bits = cb_prefix
perform pc opcode Group.ld_sp_hl = ld_sp hl 6
perform pc opcode Group.swap_af = ex_af
perform pc opcode Group.swap_all = exx
perform pc opcode Group.swap_de_hl = ex_de_hl
perform pc opcode Group.swap_sp_hl = ex_sp_hl
perform pc opcode Group.rlca = do op_rlca; count 4
perform pc opcode Group.rrca = do op_rrca; count 4
perform pc opcode Group.rla = do op_rla; count 4
perform pc opcode Group.rra = do op_rra; count 4
perform pc opcode Group.daa = do op_daa; count 4
perform pc opcode Group.cpl = do op_cpl; count 4
perform pc opcode Group.scf = do op_scf; count 4
perform pc opcode Group.ccf = do op_ccf; count 4
perform pc opcode Group.in_a = in_a_n
perform pc opcode Group.out_a = out_n_a
perform pc opcode Group.unrecognised = trap pc

-- fetch, refresh counter, dispatch
unfoldable pub execute_instruction : M ℕ
execute_instruction s = (do opcode ← fetch_byte; bump_r; perform s.pc opcode (decode opcode)) s

-- the step of a halted CPU
unfoldable pub halted_step : M ℕ
halted_step = do bump_r; count 4

-- the function behind the breakpoint test
unfoldable pub execute_armed : M ℕ
unfolding halted_step
execute_armed s =
    if s.nmi_pending
    then accept_nmi (record s { nmi_pending = false })
    else if s.irq_line && s.iff1 && not s.ei_delay_pending
    then accept_irq s
    else (let s' = record s { ei_delay_pending = false } in
        if s.halted then halted_step s' else execute_instruction s')

abbrev pub as_int : ℕ × Cpu → ℤ × Cpu
as_int (n, s) = (pos n, s)

-- `negsuc 0` is -1.
unfoldable pub execute_one : M ℤ
unfolding execute_armed
execute_one s =
    if s.in_step_mode
    then as_int (execute_armed (record s { in_step_mode = false }))
    else if contains s.pc s.enabled_breakpoints
    then (negsuc 0, s)
    else as_int (execute_armed s)
