-- ===== src/Em8/Cpu/Calls.antt =====
-- A subroutine of the EM8 returns behind its call.
use emfe_plugins.Base.{
  ℕ, ◌+◌, ◌-◌, ◌/◌, ◌<◌, ◌≡◌, refl, bit_and, arith, ltb, if◌then◌else◌, u8, u16, word,
}
use emfe_plugins.Em8.Cpu.State.{Cpu, ret, ◌>>=◌, ◌>>◌, gets, set_pc}
use emfe_plugins.Em8.Cpu.Bus.{read_byte, fetch_byte, fetch_word, push8, pull8, push16, pull16}
use emfe_plugins.Em8.Cpu.Control.{execute_jump, shadow_push, shadow_pop}
use emfe_plugins.Em8.Cpu.Opcode.{jsr_abs, rts}
use emfe_plugins.Em8.Cpu.Stack.{word_halves, slot, push16-bytes, pull16-value}

-- Fetching a word moves the PC by two and touches nothing else but the memory.
fetch_word-frame :
    (s : Cpu)
    → let s' = (fetch_word s).1 in
      (s'.pc ≡ u16 (s.pc + 2)) × (s'.sp ≡ s.sp) × (s'.shadow_stack_top ≡ s.shadow_stack_top)
unfolding fetch_word fetch_byte read_byte ret ◌>>=◌
fetch_word-frame s = (omega arith, refl, refl)

shadow_push-frame :
    (pc : ℕ) (s : Cpu)
    → let s' = (shadow_push pc s).1 in
      (s'.sp ≡ s.sp)
      × (s'.memory ≡ s.memory)
      × (s'.shadow_stack_top
          ≡ (if ltb s.shadow_stack_top 256 then s.shadow_stack_top + 1 else s.shadow_stack_top))
unfolding shadow_push
shadow_push-frame pc s = ground arith

push16-shadow : (v : ℕ) (s : Cpu) → (push16 v s).1.shadow_stack_top ≡ s.shadow_stack_top
unfolding push16 push8 ◌>>◌
push16-shadow v s = refl

pull16-shadow : (s : Cpu) → (pull16 s).1.shadow_stack_top ≡ s.shadow_stack_top
unfolding pull16 pull8 read_byte ret ◌>>=◌
pull16-shadow s = refl

-- what `JSR` leaves: the address of its last byte on the stack
jsr-frame :
    (s : Cpu)
    → s.sp < 256
    → let s' = (execute_jump jsr_abs s).1 in
      let back = u16 (u16 (s.pc + 2) + 65535) in
      (s'.sp ≡ u8 (s.sp + 254))
      × (s'.memory.bytes (slot s'.sp 2) ≡ u8 (back / 256))
      × (s'.memory.bytes (slot s'.sp 1) ≡ u8 (bit_and back 0xff))
      × (s'.shadow_stack_top
          ≡ (if ltb s.shadow_stack_top 256 then s.shadow_stack_top + 1 else s.shadow_stack_top))
unfolding execute_jump ◌>>=◌ ◌>>◌ ret gets set_pc
jsr-frame s h =
    let w = (fetch_word s).1 in
    let pushed = (push16 (u16 (w.pc + 65535)) w).1 in
    let moved : w.pc ≡ u16 (s.pc + 2) = (fetch_word-frame s).0 in
    let same : w.sp ≡ s.sp = (fetch_word-frame s).1 in
    let stacked = push16-bytes (u16 (w.pc + 65535)) w (rw same h) in
    let shadow = shadow_push-frame w.pc pushed in
    let addresses : (shadow_push w.pc pushed).1.sp ≡ pushed.sp = shadow.0 in
    rw (shadow.1, addresses, ← moved)
      (
        omega (arith, stacked.0, same),
        stacked.2,
        stacked.3,
        ground (arith, shadow, push16-shadow (u16 (w.pc + 65535)) w, fetch_word-frame s),
      )

rts-frame :
    (t : Cpu)
    → t.sp < 256
    → let u = (execute_jump rts t).1 in
      (u.pc ≡ u16 (word (t.memory.bytes (slot t.sp 2)) (t.memory.bytes (slot t.sp 1)) + 1))
      × (u.sp ≡ u8 (t.sp + 2))
      × (u.shadow_stack_top ≡ t.shadow_stack_top - 1)
unfolding execute_jump ◌>>=◌ ◌>>◌ ret gets set_pc shadow_pop
rts-frame t h = ground (arith, pull16-value t h, pull16-shadow t)

-- A subroutine returns behind its call. Let `t` be any later state in which the stack pointer and
-- the two bytes above it are as the `JSR` left them; its `RTS` goes to the byte after the call and
-- restores the stack pointer. The shadow stack is back at its old depth as well, unless it was
-- full at the call: then one entry too many is dropped.
pub rts-jsr :
    (s t : Cpu)
    → s.sp < 256
    → s.pc < 65536
    → let s' = (execute_jump jsr_abs s).1 in
      t.sp ≡ s'.sp
      → t.memory.bytes (slot s'.sp 1) ≡ s'.memory.bytes (slot s'.sp 1)
      → t.memory.bytes (slot s'.sp 2) ≡ s'.memory.bytes (slot s'.sp 2)
      → t.shadow_stack_top ≡ s'.shadow_stack_top
      → let u = (execute_jump rts t).1 in
        (u.pc ≡ u16 (s.pc + 2))
        × (u.sp ≡ s.sp)
        × (u.shadow_stack_top
            ≡ (if ltb s.shadow_stack_top 256 then s.shadow_stack_top else s.shadow_stack_top - 1))
rts-jsr s t h g same low high depth = ground (
  arith,
  jsr-frame s h,
  rts-frame t (omega (arith, jsr-frame s h)),
  word_halves (u16 (u16 (s.pc + 2) + 65535)),
)
