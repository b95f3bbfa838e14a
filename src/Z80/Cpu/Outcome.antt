-- ===== src/Z80/Cpu/Outcome.antt =====
-- What `ExecuteOne` of the Z80 returns, for every state and every opcode.
use emfe_plugins.Base.{
  ℕ, ◌+◌, ◌<◌, ◌≤◌, ◌≡◌, refl, Bool, true, false, ◌&&◌, not, contains, u64, all_below,
  all_below_sound, if_cases, arith,
}
use emfe_plugins.Base.Signed.{ℤ, pos, negsuc}
use emfe_plugins.Z80.Memory
use emfe_plugins.Z80.Cpu.State.{Cpu, ◌>>=◌, ◌>>◌, modify, bump_r}
use emfe_plugins.Z80.Cpu.Bus.{fetch_byte}
use emfe_plugins.Z80.Cpu.Interrupts.{accept_nmi, accept_irq}
use emfe_plugins.Z80.Cpu.Execute.{
  decode, execute_instruction, execute_armed, halted_step, execute_one,
}
use emfe_plugins.Z80.Cpu.Frames.{
  Kept-trans, Quiet, Counts, Counts-after, Counted, modify-Quiet, bump_r-Quiet, cycles_bounds,
}
use emfe_plugins.Z80.Cpu.FramesBus.{part_rules, fetch_byte-Quiet}
use emfe_plugins.Z80.Cpu.Counters.{is_recognised, perform-Counted}

-- No byte is an unrecognised opcode.
decode_table : all_below 256 (λ op. is_recognised (decode op)) ≡ true
unfolding all_below decode
decode_table = refl

pub decode-is_recognised : (op : ℕ) → op < 256 → is_recognised (decode op) ≡ true
decode-is_recognised op h = all_below_sound 256 (λ o. is_recognised (decode o)) op decode_table h

-- the RAM is an array of bytes
abbrev pub IsRam : (ℕ → ℕ) → Type 0
IsRam ram = (addr : ℕ) → ram addr < 256

nmi_masks-Quiet : Quiet (modify (λ s. record s { halted = false; iff2 = s.iff1; iff1 = false }))
nmi_masks-Quiet = modify-Quiet _ (λ s. ground arith)

irq_masks-Quiet : Quiet (modify (λ s. record s { halted = false; iff1 = false; iff2 = false }))
irq_masks-Quiet = modify-Quiet _ (λ s. ground arith)

accept_nmi-Counted : Counted accept_nmi
unfolding accept_nmi
accept_nmi-Counted = search (part_rules, nmi_masks-Quiet) depth 12

accept_irq-Counted : Counted accept_irq
unfolding accept_irq
accept_irq-Counted = search (part_rules, irq_masks-Quiet) depth 12

halted_step-Counted : Counted halted_step
unfolding halted_step
halted_step-Counted = search part_rules

pub instruction-Counts :
    (s : Cpu) → IsRam s.memory.ram → Counts s (execute_instruction s).0 (execute_instruction s).1
unfolding execute_instruction ◌>>=◌ ◌>>◌
instruction-Counts s bytes =
    let op = (fetch_byte s).0 in
    let fetched = (fetch_byte s).1 in
    let op_in : op < 256 = unfold fetch_byte Memory.read_byte in bytes s.pc in
    Counts-after (Kept-trans (fetch_byte-Quiet.run s) (bump_r-Quiet.run fetched))
      ((perform-Counted s.pc op (decode op) (decode-is_recognised op op_in)).run (bump_r fetched).1)

-- an executed step: it counted, it took what NMI was pending, and the step mode is over
pub record Ran (s : Cpu) (n : ℕ) (t : Cpu) : Type 0 where
  pub cycles : t.cycle_count ≡ u64 (s.cycle_count + n)
  pub instruction : t.instruction_count ≡ u64 (s.instruction_count + 1)
  pub no_nmi : t.nmi_pending ≡ false
  pub irq : t.irq_line ≡ s.irq_line
  pub enabled : t.enabled_breakpoints ≡ s.enabled_breakpoints
  pub disabled : t.disabled_breakpoints ≡ s.disabled_breakpoints
  pub step_mode : t.in_step_mode ≡ false
  pub bounds : (4 ≤ n) × (n ≤ 23)

-- a breakpoint stops a CPU that is not stepping
abbrev pub stops : Cpu → Bool
stops s = not s.in_step_mode && contains s.pc s.enabled_breakpoints

pub data Outcome (s : Cpu) : ℤ → Cpu → Type 0 where
  stopped : {k : ℤ} {t : Cpu} → stops s ≡ true → k ≡ negsuc 0 → t ≡ s → Outcome s k t
  ran : {k : ℤ} {t : Cpu} (n : ℕ) → stops s ≡ false → k ≡ pos n → Ran s n t → Outcome s k t

-- the step of a CPU that is past the breakpoint test
Ran-armed :
    (s : Cpu)
    → IsRam s.memory.ram
    → s.in_step_mode ≡ false
    → Ran s (execute_armed s).0 (execute_armed s).1
unfolding execute_armed
Ran-armed s bytes plain =
    if_cases P s.nmi_pending
      (λ e. taken (accept_nmi-Counted.run (record s { nmi_pending = false })))
      λ e.
        if_cases P (s.irq_line && s.iff1 && not s.ei_delay_pending)
          (λ i. kept e (accept_irq-Counted.run s))
          λ i.
            if_cases P s.halted
              (λ w. again e (halted_step-Counted.run (record s { ei_delay_pending = false })))
              λ w. again e (instruction-Counts (record s { ei_delay_pending = false }) bytes)
  where
    P : ℕ × Cpu → Type 0
    P r = Ran s r.0 r.1

    taken : {n : ℕ} {t : Cpu} → Counts (record s { nmi_pending = false }) n t → Ran s n t
    taken c = ground (arith, plain, cycles_bounds c.in_range)

    kept : {n : ℕ} {t : Cpu} → s.nmi_pending ≡ false → Counts s n t → Ran s n t
    kept e c = ground (arith, plain, cycles_bounds c.in_range)

    again :
        {n : ℕ} {t : Cpu}
        → s.nmi_pending ≡ false
        → Counts (record s { ei_delay_pending = false }) n t
        → Ran s n t
    again e c = ground (arith, plain, cycles_bounds c.in_range)

-- `ExecuteOne` returns -1 and changes nothing exactly if it is not stepping and the PC is at an
-- enabled breakpoint. From every other state it executes one step, an interrupt, the pause of a
-- halted CPU or an instruction, whatever byte the PC is at: it returns 4 to 23 cycles, adds them to
-- the cycle count and 1 to the instruction count, leaves no NMI pending and no step mode, and leaves
-- the interrupt line and the breakpoints. It never returns 0.
pub execute_one-Outcome :
    (s : Cpu) → IsRam s.memory.ram → Outcome s (execute_one s).0 (execute_one s).1
unfolding execute_one
execute_one-Outcome s bytes =
    if_cases P s.in_step_mode
      (λ e.
        Outcome.ran _ (ground arith) refl
          (unstep (Ran-armed (record s { in_step_mode = false }) bytes refl)))
      λ e.
        if_cases P (contains s.pc s.enabled_breakpoints)
          (λ b. Outcome.stopped (ground arith) refl refl)
          λ b. Outcome.ran _ (ground arith) refl (Ran-armed s bytes e)
  where
    P : ℤ × Cpu → Type 0
    P r = Outcome s r.0 r.1

    unstep : {n : ℕ} {t : Cpu} → Ran (record s { in_step_mode = false }) n t → Ran s n t
    unstep r = ground (arith, r.bounds)
