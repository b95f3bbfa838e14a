-- ===== src/Em8/Cpu/Handlers.antt =====
-- An interrupt handler of the EM8 returns to the interrupted instruction.
use emfe_plugins.Base.{
  ℕ, ◌+◌, ◌/◌, ◌<◌, ◌≡◌, refl, ◌∙◌, bit_and, arith, true, false, u8, word, not8,
}
use emfe_plugins.Em8.Memory
use emfe_plugins.Em8.Memory.{Memory}
use emfe_plugins.Em8.Memory.Access.{read_low, write_low, bytes-read}
use emfe_plugins.Em8.Cpu.State.{
  Flag, mask, Cpu, ret, ◌>>=◌, ◌>>◌, get_flag, set_flag, gets, set_pc, set_fl, put_flag,
}
use emfe_plugins.Em8.Cpu.Bus.{read_byte, push8, pull8, push16, pull16}
use emfe_plugins.Em8.Cpu.Flags.{get_flag-set_flag}
use emfe_plugins.Em8.Cpu.Interrupts.{enter, check_interrupts}
use emfe_plugins.Em8.Cpu.Control.{execute_jump}
use emfe_plugins.Em8.Cpu.Opcode.{rti}
use emfe_plugins.Em8.Cpu.Stack.{word_halves, slot, push16-bytes, pull16-value}

push16-fl : (v : ℕ) (s : Cpu) → (push16 v s).1.fl ≡ s.fl
unfolding push16 push8 ◌>>◌
push16-fl v s = refl

pull16-fl : (s : Cpu) → (pull16 s).1.fl ≡ s.fl
unfolding pull16 pull8 read_byte ret ◌>>=◌
pull16-fl s = refl

-- what the entry of an interrupt leaves on the stack
enter-frame :
    (vector : ℕ) (s : Cpu)
    → s.sp < 256
    → let s' = (enter vector s).1 in
      (s'.sp ≡ u8 (s.sp + 253))
      × (s'.memory.bytes (slot s'.sp 3) ≡ u8 (s.pc / 256))
      × (s'.memory.bytes (slot s'.sp 2) ≡ u8 (bit_and s.pc 0xff))
      × (s'.memory.bytes (slot s'.sp 1) ≡ bit_and s.fl (not8 (mask Flag.b)))
unfolding enter ◌>>=◌ ◌>>◌ ret gets set_pc put_flag set_flag read_byte push8
enter-frame vector s h =
    let p = (push16 s.pc s).1 in
    let at = 0x0100 + p.sp in
    let kept = bit_and p.fl (not8 (mask Flag.b)) in
    let stacked = push16-bytes s.pc s h in
    let written = Memory.write at kept p.memory in
    let byte = λ (k : ℕ).
      bytes-read (vector + 1) (slot (u8 (p.sp + 255)) k) (Memory.read vector written).1 in
    let byte' = λ (k : ℕ). bytes-read vector (slot (u8 (p.sp + 255)) k) written in
    let stored = λ (k : ℕ). write_low at (slot (u8 (p.sp + 255)) k) kept p.memory in
    (
      omega (arith, stacked.0),
      ground (arith, stacked, byte 3, byte' 3, stored 3),
      ground (arith, stacked, byte 2, byte' 2, stored 2),
      ground (arith, stacked, byte 1, byte' 1, stored 1, push16-fl s.pc s),
    )

rti-frame :
    (t : Cpu)
    → t.sp < 256
    → let u = (execute_jump rti t).1 in
      (u.fl ≡ t.memory.bytes (slot t.sp 1))
      × (u.pc ≡ word (t.memory.bytes (slot t.sp 3)) (t.memory.bytes (slot t.sp 2)))
      × (u.sp ≡ u8 (t.sp + 3))
unfolding execute_jump ◌>>=◌ ◌>>◌ ret gets set_pc set_fl pull8 read_byte
rti-frame t h =
    let m = (Memory.read (slot t.sp 1) t.memory).1 in
    let p = record t {
      sp = u8 (t.sp + 1);
      fl = (Memory.read (slot t.sp 1) t.memory).0;
      memory = m;
    } in
    let first = read_low (slot t.sp 1) 0 t.memory (omega arith) in
    (
      pull16-fl p ∙ first.0,
      ground (
        arith,
        pull16-value p (omega arith),
        bytes-read (slot t.sp 1) (slot t.sp 2) t.memory,
        bytes-read (slot t.sp 1) (slot t.sp 3) t.memory,
      ),
      omega (arith, pull16-value p (omega arith)),
    )

-- A handler returns to the interrupted instruction. Let an interrupt check take an NMI or an IRQ,
-- and let `t` be any later state in which the stack pointer and the three bytes above it are as the
-- check left them; the `RTI` restores the PC, the stack pointer and the flags, I included, with B
-- cleared.
pub rti-check_interrupts :
    (s t : Cpu)
    → s.sp < 256
    → s.pc < 65536
    → (check_interrupts s).0 ≡ 7
    → let s' = (check_interrupts s).1 in
      t.sp ≡ s'.sp
      → t.memory.bytes (slot s'.sp 1) ≡ s'.memory.bytes (slot s'.sp 1)
      → t.memory.bytes (slot s'.sp 2) ≡ s'.memory.bytes (slot s'.sp 2)
      → t.memory.bytes (slot s'.sp 3) ≡ s'.memory.bytes (slot s'.sp 3)
      → let u = (execute_jump rti t).1 in
        (u.pc ≡ s.pc) × (u.sp ≡ s.sp) × (u.fl ≡ bit_and s.fl (not8 (mask Flag.b)))
unfolding check_interrupts
rti-check_interrupts s t h g taken same b1 b2 b3 = ground (
  arith,
  enter-frame 0xfffa (record s { nmi_pending = false }) h,
  enter-frame 0xfffe s h,
  rti-frame t,
  word_halves s.pc g,
)

enter-masks :
    (vector : ℕ) (s : Cpu)
    → let s' = (enter vector s).1 in
      (get_flag Flag.i s' ≡ true) × (s'.nmi_pending ≡ s.nmi_pending) × (s'.halted ≡ s.halted)
enter-masks vector s = (
  flag,
  unfold enter ◌>>=◌ ◌>>◌ ret gets set_pc put_flag set_flag read_byte push16 push8 in refl,
  unfold enter ◌>>=◌ ◌>>◌ ret gets set_pc put_flag set_flag read_byte push16 push8 in refl,
)
  where
    before : Cpu
    before = (push8 (bit_and (push16 s.pc s).1.fl (not8 (mask Flag.b))) (push16 s.pc s).1).1

    flag : get_flag Flag.i (enter vector s).1 ≡ true
    flag =
        unfold get_flag enter ◌>>=◌ ◌>>◌ ret gets set_pc put_flag read_byte in
        get_flag-set_flag Flag.i Flag.i true before

-- Interrupts do not nest: a check right after one that took an interrupt takes none, since the
-- first left I set and no NMI pending.
pub check_interrupts_once :
    (s : Cpu)
    → (check_interrupts s).0 ≡ 7
    → let s' = (check_interrupts s).1 in check_interrupts s' ≡ (0, s')
unfolding check_interrupts
check_interrupts_once s taken =
    ground (arith, enter-masks 0xfffa (record s { nmi_pending = false }), enter-masks 0xfffe s)
