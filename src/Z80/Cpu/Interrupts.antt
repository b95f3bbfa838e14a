-- ===== src/Z80/Cpu/Interrupts.antt =====
-- z80/src/Z80Cpu.cpp: `AcceptNmi` and `AcceptIrq`.
use emfe_plugins.Base.{ℕ, ◌*◌, false, bit_or, ◌==◌, if◌then◌else◌, u16}
use emfe_plugins.Z80.Memory
use emfe_plugins.Z80.Cpu.State.{Cpu, M, ◌>>=◌, ◌>>◌, gets, modify, set_pc, bump_r, count}
use emfe_plugins.Z80.Cpu.Bus.{push16}

unfoldable pub accept_nmi : M ℕ
accept_nmi = do
  modify (λ s. record s { halted = false; iff2 = s.iff1; iff1 = false })
  pc ← gets (λ s. s.pc)
  push16 pc
  set_pc 0x0066
  bump_r
  count 11

-- `switch (IM)`: the address
unfoldable pub vector : Cpu → ℕ
vector s = if s.im == 2 then Memory.read_word (u16 (bit_or (s.i * 256) 0xFF)) s.memory else 0x0038

unfoldable pub accept_irq : M ℕ
unfolding vector
accept_irq = do
  modify (λ s. record s { halted = false; iff1 = false; iff2 = false })
  pc ← gets (λ s. s.pc)
  push16 pc
  im ← gets (λ s. s.im)
  target ← gets vector
  set_pc target
  bump_r
  count (if im == 2 then 19 else 13)
