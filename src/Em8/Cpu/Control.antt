-- ===== src/Em8/Cpu/Control.antt =====
-- em8/src/Em8Cpu.cpp: the cases of `ExecuteOne` that branch, jump, use the stack or change flags.
use emfe_plugins.Base.{
  ℕ, ◌+◌, ◌-◌, Bool, true, false, not, bit_or, ltb, if◌then◌else◌, update, u16, word, add_offset,
}
use emfe_plugins.Em8.Cpu.State.{
  Flag, mask, Cpu, M, ret, ◌>>=◌, ◌>>◌, get_flag, gets, set_pc, set_fl, halt, put_flag,
}
use emfe_plugins.Em8.Cpu.Bus.{read_byte, fetch_byte, fetch_word, push8, pull8, push16, pull16}
use emfe_plugins.Em8.Cpu.Opcode.{
  Branch, beq, bne, bcs, bcc, bmi, bpl, bvs, bvc, bra, Jump, jmp_abs, jsr_abs, rts, rti, Stack, pha,
  pla, phf, plf, System, clc, sec, cli, sei, clv, nop, brk, hlt,
}
use emfe_plugins.Em8.Cpu.Statements.{load_a, get_a}

-- the test of each branch
unfoldable pub is_taken : Branch → Cpu → Bool
is_taken beq s = get_flag Flag.z s
is_taken bne s = not (get_flag Flag.z s)
is_taken bcs s = get_flag Flag.c s
is_taken bcc s = not (get_flag Flag.c s)
is_taken bmi s = get_flag Flag.n s
is_taken bpl s = not (get_flag Flag.n s)
is_taken bvs s = get_flag Flag.v s
is_taken bvc s = not (get_flag Flag.v s)
is_taken bra s = true

unfoldable pub execute_branch : Branch → M ℕ
execute_branch o = do
  off ← fetch_byte
  taken ← gets (is_taken o)
  pc ← gets (λ s. s.pc)
  set_pc (if taken then add_offset pc off else pc)
  ret (if taken then 3 else 2)

unfoldable pub shadow_push : ℕ → M (Unit {0})
shadow_push ret_pc s = (
  tt,
  if ltb s.shadow_stack_top 256
      then record s {
        shadow_stack = update s.shadow_stack s.shadow_stack_top ret_pc;
        shadow_stack_top = s.shadow_stack_top + 1;
      }
      else s,
)

unfoldable pub shadow_pop : M (Unit {0})
shadow_pop s = (
  tt,
  if ltb 0 s.shadow_stack_top then record s { shadow_stack_top = s.shadow_stack_top - 1 } else s,
)

unfoldable pub execute_jump : Jump → M ℕ
execute_jump jmp_abs = do target ← fetch_word; set_pc target; ret 3
execute_jump jsr_abs = do
  target ← fetch_word
  pc ← gets (λ s. s.pc)
  push16 (u16 (pc + 65535))
  shadow_push pc
  set_pc target
  ret 6
execute_jump rts = do back ← pull16; set_pc (u16 (back + 1)); shadow_pop; ret 6
execute_jump rti = do fl ← pull8; set_fl fl; back ← pull16; set_pc back; ret 7

unfoldable pub execute_stack : Stack → M ℕ
execute_stack pha = do a ← get_a; push8 a; ret 3
execute_stack pla = do a ← pull8; load_a a; ret 4
execute_stack phf = do fl ← gets (λ s. s.fl); push8 fl; ret 3
execute_stack plf = do fl ← pull8; set_fl fl; ret 4

unfoldable pub execute_system : System → M ℕ
execute_system clc = do put_flag Flag.c false; ret 2
execute_system sec = do put_flag Flag.c true; ret 2
execute_system cli = do put_flag Flag.i false; ret 2
execute_system sei = do put_flag Flag.i true; ret 2
execute_system clv = do put_flag Flag.v false; ret 2
execute_system nop = ret 2
execute_system brk = do
  pc ← gets (λ s. s.pc)
  set_pc (u16 (pc + 1))
  push16 (u16 (pc + 1))
  fl ← gets (λ s. s.fl)
  push8 (bit_or fl (mask Flag.b))
  put_flag Flag.i true
  lo ← read_byte 0xfffe
  hi ← read_byte 0xffff
  set_pc (word hi lo)
  ret 7
execute_system hlt = do halt; ret 2

-- the default case: the PC goes back to the opcode
unfoldable pub execute_undefined : M ℕ
execute_undefined = do halt; pc ← gets (λ s. s.pc); set_pc (u16 (pc + 65535)); ret 2
