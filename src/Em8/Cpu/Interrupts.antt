-- ===== src/Em8/Cpu/Interrupts.antt =====
-- em8/src/Em8Cpu.cpp: `Reset` and `CheckInterrupts`.
use emfe_plugins.Base.{ℕ, ◌+◌, true, false, ◌&&◌, not, bit_and, if◌then◌else◌, not8, word}
use emfe_plugins.Em8.Memory
use emfe_plugins.Em8.Cpu.State.{
  i, b, mask, Cpu, M, ret, ◌>>=◌, ◌>>◌, get_flag, gets, set_pc, put_flag,
}
use emfe_plugins.Em8.Cpu.Bus.{read_byte, push8, push16}

-- `Memory` is not null here.
unfoldable pub reset : Cpu → Cpu
reset s =
    let lo = Memory.peek 0xfffc s.memory in
    let hi = Memory.peek 0xfffd s.memory in
    record s {
      a = 0;
      x = 0;
      y = 0;
      sp = 0xff;
      fl = mask i;
      halted = false;
      cycle_count = 0;
      instruction_count = 0;
      nmi_pending = false;
      irq_line = false;
      shadow_stack_top = 0;
      pc = word hi lo;
    }

-- what both kinds of interrupt do, with the address of their vector
unfoldable pub enter : ℕ → M ℕ
enter vector = do
  pc ← gets (λ s. s.pc)
  push16 pc
  fl ← gets (λ s. s.fl)
  push8 (bit_and fl (not8 (mask b)))
  put_flag i true
  lo ← read_byte vector
  hi ← read_byte (vector + 1)
  set_pc (word hi lo)
  ret 7

unfoldable pub check_interrupts : M ℕ
check_interrupts s =
    if s.halted
    then (0, s)
    else if s.nmi_pending
    then enter 0xfffa (record s { nmi_pending = false })
    else if s.irq_line && not (get_flag i s)
    then enter 0xfffe s
    else (0, s)
