-- ===== src/Z80/Cpu/Returns.antt =====
-- Calls, interrupts and what returns from them on the Z80.
use emfe_plugins.Base.{
  ℕ, ◌+◌, ◌*◌, ◌<◌, ◌≡◌, ◌∙◌, refl, false, if◌then◌else◌, bit_or, ◌==◌, u16, arith,
}
use emfe_plugins.Z80.Memory
use emfe_plugins.Z80.Memory.{Memory}
use emfe_plugins.Z80.Memory.Words.{read_word-write_word}
use emfe_plugins.Z80.Cpu.State.{Cpu, ◌>>=◌, ◌>>◌, ret, gets, modify, set_pc, bump_r, count}
use emfe_plugins.Z80.Cpu.Bus.{fetch_byte, fetch_word, push16, pop16}
use emfe_plugins.Z80.Cpu.Control.{call_nn, return_to, ret_pc}
use emfe_plugins.Z80.Cpu.Extended.{retn}
use emfe_plugins.Z80.Cpu.Interrupts.{accept_nmi, accept_irq}

-- Popping what was pushed: the word, and the stack pointer as before.
pub pop16-push16 :
    (v : ℕ) (s : Cpu)
    → v < 65536
    → s.sp < 65536
    → ((pop16 (push16 v s).1).0 ≡ v) × ((pop16 (push16 v s).1).1.sp ≡ s.sp)
unfolding pop16 push16
pop16-push16 v s h g =
    (read_word-write_word (u16 (s.sp + 65534)) v s.memory (omega arith) h, omega arith)

-- RET behind CALL nn continues behind the three bytes of the call, with the stack pointer as before
-- it, after the call went to the word of its operand.
pub ret_pc-call_nn :
    (s : Cpu)
    → s.pc < 65536
    → s.sp < 65536
    → let called = (call_nn s).1 in
      let back = (ret_pc called).1 in
      (called.pc ≡ u16 (bit_or (s.memory.ram s.pc) (s.memory.ram (u16 (s.pc + 1)) * 256)))
      × (called.sp ≡ u16 (s.sp + 65534))
      × (back.pc ≡ u16 (s.pc + 2))
      × (back.sp ≡ s.sp)
unfolding call_nn ret_pc fetch_word fetch_byte ret gets count set_pc pop16 push16 ◌>>=◌ ◌>>◌
    Memory.read_byte
ret_pc-call_nn s h g = (
  refl,
  refl,
  read_word-write_word (u16 (s.sp + 65534)) (u16 (u16 (s.pc + 1) + 1)) _ (omega arith) (omega arith)
      ∙ omega arith,
  omega arith,
)

-- An accepted NMI goes to 0x0066 with the maskable interrupt off and the CPU awake, and RETN goes
-- back to where it was taken, with the stack pointer and the interrupt switch as they were then.
pub retn-accept_nmi :
    (s : Cpu)
    → s.pc < 65536
    → s.sp < 65536
    → let taken = (accept_nmi s).1 in
      let back = (retn taken).1 in
      (taken.pc ≡ 0x0066)
      × (taken.iff1 ≡ false)
      × (taken.halted ≡ false)
      × (back.pc ≡ s.pc)
      × (back.sp ≡ s.sp)
      × (back.iff1 ≡ s.iff1)
unfolding accept_nmi retn return_to gets modify count set_pc bump_r pop16 push16 ◌>>=◌ ◌>>◌
retn-accept_nmi s h g = (
  refl,
  refl,
  refl,
  read_word-write_word (u16 (s.sp + 65534)) s.pc s.memory (omega arith) h,
  omega arith,
  refl,
)

-- An accepted maskable interrupt wakes the CPU, turns both switches off and goes to 0x0038, or in
-- mode 2 to the word at the vector of I and 0xFF behind the push; RETI goes back to where it was
-- taken, with the stack pointer as then and the interrupt still off.
pub retn-accept_irq :
    (s : Cpu)
    → s.pc < 65536
    → s.sp < 65536
    → let taken = (accept_irq s).1 in
      let back = (retn taken).1 in
      (taken.pc ≡ (
        if s.im == 2
        then Memory.read_word (u16 (bit_or (s.i * 256) 0xFF)) taken.memory
        else 0x0038))
      × (taken.iff1 ≡ false)
      × (taken.iff2 ≡ false)
      × (taken.halted ≡ false)
      × (back.pc ≡ s.pc)
      × (back.sp ≡ s.sp)
      × (back.iff1 ≡ false)
unfolding accept_irq retn return_to gets modify count set_pc bump_r pop16 push16 ◌>>=◌ ◌>>◌
retn-accept_irq s h g = (
  refl,
  refl,
  refl,
  refl,
  read_word-write_word (u16 (s.sp + 65534)) s.pc s.memory (omega arith) h,
  omega arith,
  refl,
)
